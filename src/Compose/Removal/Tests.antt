-- ===== src/Compose/Removal/Tests.antt =====
-- Two containers of a service and one of another, and the theorems about local/compose/down.go and
-- stop.go at them.
use compose_cli.Prelude.{String, ◌≡◌, ◌≢◌, refl, true, false, inl, inr, List, [], ◌∷◌}
use compose_cli.Prelude.GoMap.{lookup}
use compose_cli.Compose.Types.{Container, label, service_label}
use compose_cli.Compose.Util.{contains}
use compose_cli.Compose.Containers.{is_service, split}
use compose_cli.Compose.Removal.{
  stop, remove, remove_network, Engine, Moment, begins, ends, run_walk, stop_containers,
  remove_container, remove_from, remove_containers, remove_services, stop_services, remove_networks,
  down,
}
use compose_cli.Compose.Removal.Calls.{was_removed, IsAmong, is_begun}
use compose_cli.Compose.Removal.Removed.{down-removed}
use compose_cli.Compose.Removal.Stopping.{was_stopped, stop_services-stopped}
use compose_cli.Compose.Removal.Late.{late_calls, remove_containers-late}

abbrev made : String → String → Container
made id service = record {
  id = id;
  names = [];
  labels = (service_label, service) ∷ [];
  state = "running";
}

abbrev containers : List Container
containers = made "a" "web" ∷ made "b" "old" ∷ made "c" "web" ∷ []

abbrev engine : Engine
engine = record {
  stop_fails = λ id. false;
  remove_fails = λ id. false;
  remove_network_fails = λ id. false;
}

abbrev in_turn : List Moment
in_turn = begins "web" ∷ ends 0 ∷ begins "old" ∷ ends 1 ∷ []

-- Both callbacks read the variable before one of them writes it.
abbrev at_once : List Moment
at_once = begins "web" ∷ begins "old" ∷ ends 0 ∷ ends 1 ∷ []

-- Each goroutine reads the variable of its loop in its own round.
removal_in_turn :
    down (λ k. engine) engine (λ k i. i) (λ i. i) true in_turn containers ("net" ∷ []) ≡ (
      stop "a"
          ∷ remove "a"
          ∷ stop "c"
          ∷ remove "c"
          ∷ stop "b"
          ∷ remove "b"
          ∷ remove_network "net"
          ∷ [],
      true,
    )
unfolding down remove_services run_walk remove_networks remove_containers remove_from
    remove_container stop_containers split is_service contains label lookup
removal_in_turn = refl

-- The write of the second callback undoes that of the first: the containers of `web` are in the
-- variable again, and are removed a second time as orphans.
removal_at_once : down (λ k. engine) engine (λ k i. i) (λ i. i) true at_once containers [] ≡ (
  stop "a"
      ∷ remove "a"
      ∷ stop "c"
      ∷ remove "c"
      ∷ stop "b"
      ∷ remove "b"
      ∷ stop "a"
      ∷ remove "a"
      ∷ stop "c"
      ∷ remove "c"
      ∷ [],
  true,
)
unfolding down remove_services run_walk remove_networks remove_containers remove_from
    remove_container stop_containers split is_service contains label lookup
removal_at_once = refl

down-removed_example :
    was_removed "c" (down (λ k. engine) engine (λ k i. i) (λ i. i) false at_once containers []).0
    ≡ true
unfolding down remove_services run_walk remove_networks remove_containers remove_from
    remove_container stop_containers split is_service contains label lookup is_begun
down-removed_example =
    down-removed (λ k. engine) engine (λ k i. i) (λ i. i) false at_once containers []
      (made "c" "web") (inr (inr (inl refl))) (inr refl) refl

stop_services-stopped_example :
    was_stopped "b" (stop_services (λ k. engine) at_once containers).0 ≡ true
unfolding stop_services run_walk stop_containers split is_service contains label lookup is_begun
stop_services-stopped_example =
    stop_services-stopped (λ k. engine) at_once containers (made "b" "old") (inr (inl refl)) refl
      refl

remove_containers-late_example :
    (let t = remove_containers engine (λ k. 2) containers in
      (t ≡ (late_calls (made "c" "web") containers, true))
      × ((c : Container)
          → IsAmong c containers
          → (was_removed c.id t.0 ≡ true)
            × (◌≢◌ {A = String} "c" c.id → was_stopped c.id t.0 ≡ false)))
remove_containers-late_example =
    remove_containers-late engine (λ id. refl) (λ id. refl) (λ k. 2)
      (made "a" "web" ∷ made "b" "old" ∷ []) (made "c" "web") (λ k. refl)
