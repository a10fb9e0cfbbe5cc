-- ===== src/Compose/Convergence.antt =====
-- The decisions of local/compose/convergence.go: how many containers a service gets, which are
-- created, recreated, restarted or removed, and under which names.
--
-- What the code hands to `eg.Go` is a job. The goroutines that recreate or restart a container
-- share the loop's variable: such a job holds the number of its round, and acts on the container
-- that the variable holds when the goroutine reads it, which is that of this round or a later one.
-- Every other job has a variable of its own. compose-go's GetDependencies and
-- the hash of a service are parameters.
pub mod Scaling
pub mod Naming
pub mod Deciding
pub mod Selection
pub mod Service
pub mod Dependents
mod Tests
use Prim.Native.String.{◌++◌ as text_append}
use compose_cli.Prelude.{
  ℕ, zero, suc, ◌+◌, ◌-◌, String, Bool, true, false, ◌&&◌, ◌||◌, not, Option, none, some, List, [],
  ◌∷◌, length, take, drop, ◌++◌, ltb, ◌==◌, if◌then◌else◌,
}
use compose_cli.Prelude.GoMap.{lookup, insert}
use compose_cli.Prelude.Results.{Result, ok, err, ◌>>=◌}
use compose_cli.Go.Ints.{ℤ, pos, negsuc, int_of_uint64, add_int, is_zero, lt_int}
use compose_cli.Go.Strconv.{atoi, itoa_int}
use compose_cli.Compose.Types.{
  Container, ServiceConfig, Project, label, text_or_empty, container_number_label,
  config_hash_label,
}
use compose_cli.Compose.Containers.{is_service, filter, get_canonical_container_name}
use compose_cli.Compose.Util.{contains}

-- `panic` is a panic of the program: an index out of range or a name that is too short.
pub data Fault : Type 0 where
  doubled_container_name : (name container_name : String) → Fault
  not_a_number : String → Fault
  hash_failed : Fault
  panic : Fault

abbrev pub scale_of_replicas : Option ℕ → ℤ
scale_of_replicas none = pos 1
scale_of_replicas (some n) = int_of_uint64 n

unfoldable pub get_scale : ServiceConfig → Result Fault ℤ
get_scale config =
    let scale = if is_zero config.scale then scale_of_replicas config.replicas else config.scale in
    if lt_int (pos 1) scale && not (config.container_name == "")
    then err (doubled_container_name config.name config.container_name)
    else ok scale

-- The loop of `nextContainerNumber` over the numbers; `max` never falls below 0.
abbrev pub larger : ℕ → ℤ → ℕ
larger max (pos n) = if ltb max n then n else max
larger max (negsuc n) = max

unfoldable pub max_number : ℕ → List Container → Result Fault ℕ
max_number max [] = ok max
max_number max (c ∷ containers) = elim (atoi (label c container_number_label)) [
  | none ↦ err (not_a_number (label c container_number_label))
  | some n ↦ max_number (larger max n) containers
]

unfoldable pub next_container_number : List Container → Result Fault ℤ
unfolding max_number
next_container_number containers = do max ← max_number 0 containers; ok (add_int (pos max) 1)

unfoldable pub get_container_name : String → ServiceConfig → ℤ → String
get_container_name project_name service number =
    if service.container_name == ""
    then text_append project_name
        (text_append "_" (text_append service.name (text_append "_" (itoa_int number))))
    else service.container_name

pub data Job : Type 0 where
  create : (name : String) (number : ℤ) → Job
  remove_surplus : Container → Job
  recreate : (round : ℕ) → Job
  restart : (round : ℕ) → Job

-- The loop that creates the missing containers, from its round `i` on.
unfoldable pub create_missing : String → ServiceConfig → ℤ → ℕ → ℕ → List Job
create_missing project_name service next i zero = []
create_missing project_name service next i (suc missing) =
    let number = add_int next i in
    create (get_container_name project_name service number) number
    ∷ create_missing project_name service next (suc i) missing

unfoldable pub remove_all : List Container → List Job
remove_all [] = []
remove_all (c ∷ cs) = remove_surplus c ∷ remove_all cs

unfoldable pub ensure_scale :
    String → ServiceConfig → List Container → ℤ → Result Fault (List Job × List Container)
ensure_scale project_name service actual (negsuc n) = err panic
ensure_scale project_name service actual (pos scale) =
    if ltb (length actual) scale
    then (do
      next ← next_container_number actual
      ok (create_missing project_name service next 0 (scale - length actual), actual))
    else if ltb scale (length actual)
    then ok (remove_all (drop scale actual), take scale actual)
    else ok ([], actual)

-- What the progress writer is told about a container that is left as it is.
pub data Notice : Type 0 where
  running_event created_event : String → Notice

-- Round `i` of the loop of `ensureService` over the containers that are kept.
unfoldable pub decide :
    String → ServiceConfig → ℕ → Container → Result Fault (List Job × List Notice)
decide expected service i container = elim (get_canonical_container_name container) [
  | none ↦ err panic
  | some name ↦
      if not (label container config_hash_label == expected)
        || (text_or_empty (lookup "x-lifecycle" service.extensions) == "force_recreate")
      then ok (recreate i ∷ [], [])
      else if container.state == "running"
      then ok ([], running_event name ∷ [])
      else if container.state == "created"
      then ok ([], [])
      else if container.state == "restarting"
      then ok ([], created_event name ∷ [])
      else ok (restart i ∷ [], [])
]

abbrev pub joined : List Job × List Notice → List Job × List Notice → List Job × List Notice
joined (jobs, notices) (jobs', notices') = (jobs ++ jobs', notices ++ notices')

unfoldable pub decide_all :
    String → ServiceConfig → ℕ → List Container → Result Fault (List Job × List Notice)
decide_all expected service i [] = ok ([], [])
decide_all expected service i (c ∷ cs) = do
  first ← decide expected service i c
  rest ← decide_all expected service (suc i) cs
  ok (joined first rest)

-- What `ensureService` has started when it waits for the errgroup or returns: the jobs for the
-- scale, the containers that are kept, the jobs and notices for these, and the error. After a
-- panic the process is gone, and the jobs say nothing.
pub record Started : Type 0 where
  pub scaling : List Job
  pub kept : List Container
  pub decided : List Job
  pub notices : List Notice
  pub fault : Option Fault

abbrev pub nothing_started : Fault → Started
nothing_started e = record { scaling = []; kept = []; decided = []; notices = []; fault = some e }

module _ (json_hash : ServiceConfig → Option String) where
  -- The rest of `ensureService` once the scale is settled.
  unfoldable pub converge_kept : ServiceConfig → List Job → List Container → Started
  converge_kept service scaling kept = elim (json_hash service) [
    | none ↦ record {
      scaling = scaling;
      kept = kept;
      decided = [];
      notices = [];
      fault = some hash_failed;
    }
    | some expected ↦ elim (decide_all expected service 0 kept) [
      | err e ↦ record {
        scaling = scaling;
        kept = kept;
        decided = [];
        notices = [];
        fault = some e;
      }
      | ok (jobs, notices) ↦ record {
        scaling = scaling;
        kept = kept;
        decided = jobs;
        notices = notices;
        fault = none;
      }
    ]
  ]

  unfoldable pub ensure_service : List Container → Project → ServiceConfig → Started
  ensure_service observed_state project service =
      let actual = filter observed_state (is_service (service.name ∷ [])) in
      elim (get_scale service) [
        | err e ↦ nothing_started e
        | ok scale ↦ elim (ensure_scale project.name service actual scale) [
          | err e ↦ nothing_started e
          | ok (jobs, kept) ↦ converge_kept service jobs kept
        ]
      ]

module _ (get_dependencies : ServiceConfig → List String) where
  abbrev mark : String → String → ServiceConfig → ServiceConfig
  mark service strategy s =
      if contains (get_dependencies s) service
      then record s { extensions = insert "x-lifecycle" strategy s.extensions }
      else s

  unfoldable pub mark_all : String → String → List ServiceConfig → List ServiceConfig
  mark_all service strategy [] = []
  mark_all service strategy (s ∷ services) =
      mark service strategy s ∷ mark_all service strategy services

  unfoldable pub set_dependent_lifecycle : Project → String → String → Project
  unfolding mark_all
  set_dependent_lifecycle project service strategy = record project {
    services = mark_all service strategy project.services;
  }
