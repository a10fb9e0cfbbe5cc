-- ===== src/Compose/Removal.antt =====
-- The removal of containers in local/compose/down.go and the walk of local/compose/stop.go.
--
-- What the engine answers is a parameter. The goroutines of `removeContainers` stand one after
-- another in the order in which they were started; each is given the round in which the loop that
-- starts them is when the goroutine reads its variable. The callbacks of the walk run at the same time
-- and share the variable `containers`; the order in which they read and write it is a schedule.
pub mod Calls
pub mod Walks
pub mod Removed
pub mod Late
pub mod Stopping
mod Tests
use compose_cli.Prelude.{
  ℕ, suc, String, Bool, true, false, not, ◌&&◌, Option, none, some, List, [], ◌∷◌, ◌++◌, get_elem?,
  length, if◌then◌else◌,
}
use compose_cli.Compose.Trace.{Trace, both, and_then}
use compose_cli.Compose.Types.{Container}
use compose_cli.Compose.Containers.{is_service, split}

pub data EngineCall : Type 0 where
  stop : (id : String) → EngineCall
  remove : (id : String) → EngineCall
  remove_network : (id : String) → EngineCall

-- Which calls the engine answers with an error, by the id.
pub record Engine : Type 0 where
  pub stop_fails : String → Bool
  pub remove_fails : String → Bool
  pub remove_network_fails : String → Bool

module _ (engine : Engine) where
  unfoldable pub stop_containers : List Container → Trace EngineCall
  stop_containers [] = ([], true)
  stop_containers (c ∷ containers) =
      and_then (stop c.id ∷ [], not (engine.stop_fails c.id)) (stop_containers containers)

  -- A goroutine of `removeContainers`, with what the variable of the loop holds.
  unfoldable pub remove_container : Container → Container → Trace EngineCall
  remove_container container to_delete =
      and_then (stop_containers (container ∷ []))
        (remove to_delete.id ∷ [], not (engine.remove_fails to_delete.id))

  -- The variable of the loop in its round `k`, or in its own round if there is no such round.
  abbrev pub loop_variable : List Container → Container → ℕ → Container
  loop_variable all own k = elim (get_elem? all k) [ none ↦ own | some c ↦ c ]

  unfoldable pub remove_from :
      (read_at : ℕ → ℕ) → List Container → ℕ → List Container → Trace EngineCall
  remove_from read_at all i [] = ([], true)
  remove_from read_at all i (c ∷ containers) =
      both (remove_container (loop_variable all c (read_at i)) c)
        (remove_from read_at all (suc i) containers)

  unfoldable pub remove_containers : (read_at : ℕ → ℕ) → List Container → Trace EngineCall
  remove_containers read_at containers = remove_from read_at containers 0 containers

  unfoldable pub remove_networks : List String → Trace EngineCall
  remove_networks [] = ([], true)
  remove_networks (id ∷ networks) =
      both (remove_network id ∷ [], not (engine.remove_network_fails id)) (remove_networks networks)

  abbrev pub remove_orphans_of : Bool → (ℕ → ℕ) → List Container → Trace EngineCall
  remove_orphans_of true read_at left = remove_containers read_at left
  remove_orphans_of false read_at left = ([], true)

-- A moment of a walk that runs the callbacks in goroutines: a callback for a service begins and reads
-- the variable `containers`, or the callback that was the k-th to begin has made its calls and writes
-- the variable.
pub data Moment : Type 0 where
  begins : (service : String) → Moment
  ends : (k : ℕ) → Moment

-- The variable that the callbacks share, what each callback that began will write to it, and the
-- calls. Those of a callback stand where it begins.
pub record Walk : Type 0 where
  pub containers : List Container
  pub held : List (List Container)
  pub trace : Trace EngineCall

abbrev pub at_moment : (act : ℕ → List Container → Trace EngineCall) → Walk → Moment → Walk
at_moment act w (begins service) =
    let parts = split w.containers (is_service (service ∷ [])) in
    record w { held = w.held ++ parts.1 ∷ []; trace = both w.trace (act (length w.held) parts.0) }
at_moment act w (ends k) = record w {
  containers = elim (get_elem? w.held k) [ none ↦ w.containers | some others ↦ others ];
}

unfoldable pub run_walk : (act : ℕ → List Container → Trace EngineCall) → List Moment → Walk → Walk
run_walk act [] w = w
run_walk act (m ∷ schedule) w = run_walk act schedule (at_moment act w m)

abbrev pub start_walk : List Container → Walk
start_walk containers = record { containers = containers; held = []; trace = ([], true) }

-- The walk of `Down`. The engine answers the k-th callback as `engines k` says, and `read_at k` is for
-- the goroutines that this callback starts.
-- The callbacks share an errgroup, whose `Wait` gives the first error of all of them: one of them fails
-- if and only if a call of any failed, so the walk has an error then. The calls of callbacks that run
-- at the same time may come in another order.
unfoldable pub remove_services :
    (engines : ℕ → Engine) → (read_at : ℕ → ℕ → ℕ) → List Moment → List Container → Walk
remove_services engines read_at schedule containers =
    run_walk (λ k. remove_containers (engines k) (read_at k)) schedule (start_walk containers)

-- `Down` after the project, the containers and the networks are read. Where the removal of orphans
-- fails, and where the walk failed, the networks are not removed.
unfoldable pub down :
    (engines : ℕ → Engine)
    → (engine : Engine) → (read_at : ℕ → ℕ → ℕ) → (read_orphan_at : ℕ → ℕ) → (remove_orphans : Bool)
    → (schedule : List Moment) → (containers : List Container) → (networks : List String)
    → Trace EngineCall
down engines engine read_at read_orphan_at remove_orphans schedule containers networks =
    let walk = remove_services engines read_at schedule containers in
    and_then
      (both walk.trace (remove_orphans_of engine remove_orphans read_orphan_at walk.containers))
      (remove_networks engine networks)

-- `Stop` of local/compose/stop.go after the containers are read.
unfoldable pub stop_services :
    (engines : ℕ → Engine) → List Moment → List Container → Trace EngineCall
stop_services engines schedule containers =
    (run_walk (λ k. stop_containers (engines k)) schedule (start_walk containers)).trace
