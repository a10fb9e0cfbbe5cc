-- ===== src/Compose/Removal/Stopping.antt =====
-- Which containers `Stop` of local/compose/stop.go stops.
use compose_cli.Prelude.{
  ℕ, String, ◌≡◌, refl, ap, ◌∙◌, inl, inr, Bool, true, false, not, ◌||◌, List, [], ◌∷◌, ◌++◌, arith,
  eq_iff, ◌==◌, if◌then◌else◌, not_both,
}
use compose_cli.Compose.Types.{Container, label, service_label}
use compose_cli.Compose.Trace.{Trace}
use compose_cli.Compose.Removal.{
  EngineCall, stop, remove, remove_network, Engine, Moment, start_walk, stop_containers,
  stop_services,
}
use compose_cli.Compose.Removal.Calls.{and_then-good, IsAmong, is_begun}
use compose_cli.Compose.Removal.Walks.{run_walk-IsHeld}

unfoldable pub was_stopped : String → List EngineCall → Bool
was_stopped id [] = false
was_stopped id (stop other ∷ calls) = if other == id then true else was_stopped id calls
was_stopped id (remove other ∷ calls) = was_stopped id calls
was_stopped id (remove_network other ∷ calls) = was_stopped id calls

pub was_stopped-append :
    (id : String) (calls more : List EngineCall)
    → was_stopped id (calls ++ more) ≡ (was_stopped id calls || was_stopped id more)
unfolding was_stopped
was_stopped-append id [] more = refl
was_stopped-append id (stop other ∷ calls) more = ground (arith, was_stopped-append id calls more)
was_stopped-append id (remove other ∷ calls) more = was_stopped-append id calls more
was_stopped-append id (remove_network other ∷ calls) more = was_stopped-append id calls more

before_others :
    (id : String) (calls more : List EngineCall)
    → was_stopped id calls ≡ true
    → was_stopped id (calls ++ more) ≡ true
before_others id calls more h = ground (arith, was_stopped-append id calls more, h)

after_others :
    (id : String) (calls more : List EngineCall)
    → was_stopped id more ≡ true
    → was_stopped id (calls ++ more) ≡ true
after_others id calls more h = ground (arith, was_stopped-append id calls more, h)

stops_itself : (id : String) → was_stopped id (stop id ∷ []) ≡ true
unfolding was_stopped
stops_itself id = rw ((eq_iff id id).1 refl) refl

module _ (engine : Engine) where
  stop_containers-stopped :
      (containers : List Container) (c : Container)
      → IsAmong c containers
      → (stop_containers engine containers).1 ≡ true
      → was_stopped c.id (stop_containers engine containers).0 ≡ true
  unfolding stop_containers
  stop_containers-stopped [] c among good = elim among [ ]
  stop_containers-stopped (d ∷ containers) c among good =
      let first : Trace EngineCall = (stop d.id ∷ [], not (engine.stop_fails d.id)) in
      let rest = stop_containers engine containers in
      let (is_all, good_rest, good_first) = and_then-good first rest good in
      ap (λ t. was_stopped c.id t.0) is_all ∙ (elim among [
        | inl same ↦
            before_others c.id first.0 rest.0
              (ap (λ e. was_stopped e.id first.0) same ∙ stops_itself d.id)
        | inr later ↦
            after_others c.id first.0 rest.0 (stop_containers-stopped containers c later good_rest)
      ])

-- The callbacks may begin and write the variable that they share in any order: if stop has no error,
-- it stopped each container of the project for whose service a callback began.
pub stop_services-stopped :
    (engines : ℕ → Engine) (schedule : List Moment) (containers : List Container) (c : Container)
    → IsAmong c containers
    → is_begun (label c service_label) schedule ≡ true
    → (stop_services engines schedule containers).1 ≡ true
    → was_stopped c.id (stop_services engines schedule containers).0 ≡ true
unfolding stop_services
stop_services-stopped engines schedule containers c among begun good =
    elim (run_walk-IsHeld was_stopped was_stopped-append (λ k. stop_containers (engines k))
      (λ k cs d. stop_containers-stopped (engines k) cs d) c schedule (start_walk containers)
      (among, tt)) [
        | inl achieved ↦ achieved good
        | inr (unbegun, left) ↦ absurd (not_both begun unbegun)
      ]
