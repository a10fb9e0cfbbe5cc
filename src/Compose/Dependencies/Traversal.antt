-- ===== src/Compose/Dependencies/Traversal.antt =====
-- The concurrent walk of local/compose/dependencies.go: `run`, `visit`, `InDependencyOrder` and
-- `InReverseDependencyOrder`.
--
-- A state holds the graph with its statuses, the goroutines of the errgroup, the first error, and
-- a log. A goroutine is either in the loop of `run`, with the nodes that are left, or in the call
-- of `fn` for one node. Each locked section of the graph is one step, and so are the spawning of a
-- goroutine and the return of `fn`. Which goroutine moves, what `fn` returns and the order in
-- which a map is ranged over are the environment's choice. A `*Vertex` is its key, as in Graph.
-- The log has the latest event first.
pub mod Direction
pub mod Starting
pub mod Safety
pub mod Grounding
pub mod Liveness
pub mod Projects
mod Tests
use compose_cli.Prelude.{
  String, ◌≡◌, Bool, true, false, Option, none, some, List, [], ◌∷◌, ◌++◌, if◌then◌else◌,
}
use compose_cli.Prelude.GoMap.{lookup}
use compose_cli.Compose.Util.{contains}
use compose_cli.Compose.Dependencies.Graph.{
  ServiceStatus, service_stopped, service_started, Vertex, Graph, is_empty, leaves, roots,
  get_parents, get_children, filter_children, filter_parents, update_status, new_graph,
}
use compose_cli.Compose.Dependencies.Cycles.{Outcome, done, MapOrder, has_cycles, ◌>>=◌, ◌>>◌}

pub record TraversalConfig (S : Type 0) : Type 0 where
  pub extremity_nodes : Graph S → List String
  pub adjacent_nodes : Vertex S → List String
  pub filter_adjacent_by_status : Graph S → String → ServiceStatus → Option (List String)
  pub target_service_status : ServiceStatus
  pub adjacent_service_status_to_skip : ServiceStatus

module _ {S : Type 0} where
  abbrev pub up_direction : TraversalConfig S
  up_direction = record {
    extremity_nodes = leaves;
    adjacent_nodes = get_parents;
    filter_adjacent_by_status = filter_children;
    target_service_status = service_started;
    adjacent_service_status_to_skip = service_stopped;
  }

  abbrev pub down_direction : TraversalConfig S
  down_direction = record {
    extremity_nodes = roots;
    adjacent_nodes = get_children;
    filter_adjacent_by_status = filter_parents;
    target_service_status = service_stopped;
    adjacent_service_status_to_skip = service_started;
  }

pub data Task : Type 0 where
  scanning : List String → Task
  calling : String → Task

pub data Event : Type 0 where
  launched finished failed : String → Event

-- `S` is the service type, `E` the type of the errors that `fn` returns.
pub record Run (S E : Type 0) : Type 0 where
  pub graph : Graph S
  pub tasks : List Task
  pub error : Option E
  pub log : List Event

-- The errgroup keeps the first error.
abbrev pub first_error : {E : Type 0} → Option E → E → Option E
first_error none e = some e
first_error (some old) e = some old

-- A slice built by ranging over a map: the keys in any order.
abbrev pub SameKeys : List String → List String → Type 0
SameKeys ns ks = (k : String) → contains ns k ≡ contains ks k

module _ {S : Type 0} (name : S → String) (config : TraversalConfig S) where
  -- The test of `run`: no adjacent node is in the status to skip. `none` is a nil dereference.
  unfoldable pub can_start : Graph S → String → Option Bool
  can_start g n = elim (lookup n g.vertices) [
    | none ↦ none
    | some v ↦
        elim (config.filter_adjacent_by_status g (name v.service)
          config.adjacent_service_status_to_skip) [
            | none ↦ none
            | some blocking ↦ some (is_empty blocking)
          ]
  ]

  -- What a goroutine does with the graph after `fn` returned nil.
  unfoldable pub complete : Graph S → Vertex S → Graph S
  complete g v = update_status g (name v.service) config.target_service_status

module _ {S E : Type 0} (name : S → String) (config : TraversalConfig S) where
  pub data Step (s : Run S E) : Run S E → Type 0 where
    -- `continue`
    skip :
        (before after : List Task) (n : String) (ns : List String)
        → s.tasks ≡ before ++ scanning (n ∷ ns) ∷ after
        → can_start name config s.graph n ≡ some false
        → Step s (record s { tasks = before ++ scanning ns ∷ after })
    -- `eg.Go`
    launch :
        (before after : List Task) (n : String) (ns : List String)
        → s.tasks ≡ before ++ scanning (n ∷ ns) ∷ after
        → can_start name config s.graph n ≡ some true
        → Step s (record s {
          tasks = before ++ calling n ∷ scanning ns ∷ after;
          log = launched n ∷ s.log;
        })
    -- The loop is over: `return nil`.
    leave :
        (before after : List Task)
        → s.tasks ≡ before ++ scanning [] ∷ after
        → Step s (record s { tasks = before ++ after })
    -- `fn` returned nil: update the status and run on the adjacent nodes.
    succeed :
        (before after : List Task) (n : String) (v : Vertex S) (ns : List String)
        → s.tasks ≡ before ++ calling n ∷ after
        → lookup n s.graph.vertices ≡ some v
        → SameKeys ns (config.adjacent_nodes v)
        → Step s (record s {
          graph = complete name config s.graph v;
          tasks = before ++ scanning ns ∷ after;
          log = finished n ∷ s.log;
        })
    -- `fn` returned an error. The other goroutines go on.
    fail :
        (before after : List Task) (n : String) (e : E)
        → s.tasks ≡ before ++ calling n ∷ after
        → Step s (record s {
          tasks = before ++ after;
          error = first_error s.error e;
          log = failed n ∷ s.log;
        })

  pub data Reach (s : Run S E) : Run S E → Type 0 where
    here : Reach s s
    next : {t u : Run S E} → Reach s t → Step t u → Reach s u

-- The state in which `visit` begins to wait for the errgroup.
unfoldable pub initial_run : {S E : Type 0} → Graph S → List String → Run S E
initial_run g nodes = record { graph = g; tasks = scanning nodes ∷ []; error = none; log = [] }

-- `visit`, up to the call of `eg.Wait`: the error of a cycle, or the first state of the walk.
-- `ranged` puts the extremity nodes into the order in which `Leaves` or `Roots` met them.
module _ {S E : Type 0} (name : S → String) (get_dependencies : S → List String) (order : MapOrder)
    (ranged : List String → List String) where
  unfoldable pub visit_project : TraversalConfig S → ServiceStatus → List S → Outcome (Run S E)
  unfolding initial_run
  visit_project config initial services =
      let g = new_graph name get_dependencies services initial in
      has_cycles order g >> done (initial_run g (ranged (config.extremity_nodes g)))

  unfoldable pub in_dependency_order : List S → Outcome (Run S E)
  unfolding visit_project
  in_dependency_order services = visit_project up_direction service_stopped services

  unfoldable pub in_reverse_dependency_order : List S → Outcome (Run S E)
  unfolding visit_project
  in_reverse_dependency_order services = visit_project down_direction service_started services
