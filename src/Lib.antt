-- ===== src/Lib.antt =====
-- Docker Compose CLI: the core of its local Compose back end, its context store, and parts of its
-- back ends for Azure and Amazon.
--
-- The program is the `docker` command line with back ends for Azure container instances (aci),
-- Amazon ECS (ecs), Kubernetes (kube) and a local engine (local). A command reads the current
-- context from the context store, which says which back end serves it. The local back end's `up`
-- walks the services of a project in dependency order and, at each, converges the containers of
-- the service to what the project asks for; `down` walks them in the reverse order.
--
-- The parts:
--   Prelude          Boolean tests, lists, Go's maps and error results.
--   Go               Go's 64-bit integers with their wrap-around, strconv.Atoi, Itoa and ParseBool,
--                    strings.Split, Join, HasSuffix and TrimSpace.
--   Compose/Util, Compose/Types, Compose/Containers
--                    local/compose/util.go (`contains`), the fields of compose-go's and moby's types
--                    that the code reads, local/compose/labels.go and local/compose/containers.go.
--   Compose/Dependencies
--                    local/compose/dependencies.go. Graph holds the types and one definition for
--                    each method; a pointer to a vertex is its key in the map of vertices. Edges,
--                    Build, Fields and Walks have the lemmas on the graph. Cycles is HasCycles and
--                    `visit`, which share the two slices by returning them. Traversal is the walk of
--                    InDependencyOrder and InReverseDependencyOrder: each goroutine is a value in the
--                    list of those that run, and one step is one run of a goroutine between two points
--                    where another one may interfere (a launch or a skip, an end or a failure).
--   Compose/Convergence
--                    local/compose/convergence.go: ensureScale, ensureService and what they call. What
--                    is handed to `eg.Go` is a job, and the result is the list of jobs.
--   Compose/Creation, Compose/Mounts
--                    local/compose/create.go: the labels, ports and networks of a container in the
--                    first, its mounts and binds in the second. Creation/Reloading has the options that
--                    local/compose/down.go reads back from the labels.
--   Compose/Removal  local/compose/down.go and local/compose/stop.go: the calls of the engine with which
--                    Down removes containers and networks and Stop stops containers. The callbacks of
--                    the walk run at the same time and share the variable `containers`: the order in
--                    which they read and write it is an argument. What a goroutine of removeContainers
--                    sees of the variable of the loop depends on the round in which it reads it, which
--                    is an argument too.
--   Compose/Recreation, Compose/Trace
--                    the making, replacing and restarting of a container in
--                    local/compose/convergence.go, as the calls of the engine that are made.
--   Context/Metadata, Context/Store
--                    api/context/store/contextmetadata.go and api/context/store/store.go. The state is
--                    the directory of contexts, and an operation returns its result and the new state.
--   Aci/Ports        aci/convert/ports.go: the ports of a service as those of Azure, and back.
--   Aci/Volumes      aci/convert/volume.go: the volumes of a project as file shares of Azure, and those
--                    that `run` is given as texts.
--   Ecs/Limits, Ecs/Gpu, Ecs/Environment
--                    ecs/convert.go (`toLimits`, `createEnvironment`) and ecs/gpu.go: the CPU, the memory
--                    and the environment of a task, and the machine type for services that need GPUs.
--                    A pointer to the variable of a loop is a value that names the variable.
--   Ecs/Wait         ecs/wait.go: the loop that waits for a stack. A round is what AWS answers in it.
--   Cli/Metrics      cli/metrics/metrics.go and commands.go: the command that the metrics report.
--
-- Conventions. A `map` is an association list whose order means nothing; where the code ranges over
-- one, the order is an argument. A panic is a value (`none`, or `panic`). A goroutine that has an
-- error stops; the others go on, as with errgroup.
--
-- Loops and fuel. Loops over slices and maps are structural. HasCycles recurses along edges: its fuel
-- is one more than the number of vertices, which is enough, since each nested call has put another
-- vertex among the discovered ones. The digits of a number n are found with n rounds, each of which
-- divides by ten.
--
-- Parameters, for what is not in the repository: the order of maps, compose-go's GetDependencies, the
-- hash of a service, the digest that names a context's directory, encoding/json, the default context
-- of the docker command line, how each call of the operating system and of the engine ends, the paths
-- of the operating system, what AWS answers, the account keys of Azure, what godotenv reads from a
-- file, floating-point numbers, the reading of CPUs, the casing of texts, and the names that the Azure
-- SDK has for protocols.
--
-- Not modelled: the waiting for healthy services, the other commands of local/compose, the rest of
-- the back ends aci and ecs, the back end kube, progress output, the rest of the command line, the
-- gRPC server, the sending of metrics, and delegation to the docker command. Most of these call
-- services or print.
pub mod Aci
pub mod Cli
pub mod Compose
pub mod Context
pub mod Ecs
pub mod Go
pub mod Prelude
