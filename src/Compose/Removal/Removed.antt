-- ===== src/Compose/Removal/Removed.antt =====
-- Which containers `Down` of local/compose/down.go removes.
use compose_cli.Prelude.{
  ℕ, suc, String, ◌≡◌, ap, ◌∙◌, ◌⊎◌, inl, inr, Bool, true, false, not, List, [], ◌∷◌, ◌++◌,
  not_both,
}
use compose_cli.Compose.Types.{Container, label, service_label}
use compose_cli.Compose.Trace.{Trace, both}
use compose_cli.Compose.Removal.{
  EngineCall, remove, Engine, Moment, Walk, start_walk, run_walk, stop_containers, remove_container,
  loop_variable, remove_from, remove_containers, remove_services, remove_networks,
  remove_orphans_of, down,
}
use compose_cli.Compose.Removal.Calls.{
  was_removed, was_removed-append, in_first, in_second, removes_itself, both_good, and_then-good,
  IsAmong, is_begun,
}
use compose_cli.Compose.Removal.Walks.{run_walk-IsHeld}

module _ (engine : Engine) where
  remove_container-removed :
      (container to_delete : Container)
      → (remove_container engine container to_delete).1 ≡ true
      → was_removed to_delete.id (remove_container engine container to_delete).0 ≡ true
  unfolding remove_container
  remove_container-removed container to_delete good =
      let last : Trace EngineCall =
        (remove to_delete.id ∷ [], not (engine.remove_fails to_delete.id)) in
      let (is_all, good_last, good_stop) =
        and_then-good (stop_containers engine (container ∷ [])) last good in
      ap (λ t. was_removed to_delete.id t.0) is_all
      ∙ in_second to_delete.id (stop_containers engine (container ∷ [])).0
          (remove to_delete.id ∷ []) (removes_itself to_delete.id)

  remove_from-removed :
      (read_at : ℕ → ℕ) (all : List Container) (i : ℕ) (containers : List Container) (c : Container)
      → IsAmong c containers
      → (remove_from engine read_at all i containers).1 ≡ true
      → was_removed c.id (remove_from engine read_at all i containers).0 ≡ true
  unfolding remove_from
  remove_from-removed read_at all i [] c among good = elim among [ ]
  remove_from-removed read_at all i (d ∷ containers) c (inl same) good =
      let own = remove_container engine (loop_variable engine all d (read_at i)) d in
      let rest = remove_from engine read_at all (suc i) containers in
      in_first c.id own.0 rest.0 (
        ap (λ e. was_removed e.id own.0) same
        ∙ remove_container-removed (loop_variable engine all d (read_at i)) d
            (both_good own.1 rest.1 good).0)
  remove_from-removed read_at all i (d ∷ containers) c (inr later) good =
      let own = remove_container engine (loop_variable engine all d (read_at i)) d in
      let rest = remove_from engine read_at all (suc i) containers in
      in_second c.id own.0 rest.0
        (remove_from-removed read_at all (suc i) containers c later (both_good own.1 rest.1 good).1)

  pub remove_containers-removed :
      (read_at : ℕ → ℕ) (containers : List Container) (c : Container)
      → IsAmong c containers
      → (remove_containers engine read_at containers).1 ≡ true
      → was_removed c.id (remove_containers engine read_at containers).0 ≡ true
  unfolding remove_containers
  remove_containers-removed read_at containers c among good =
      remove_from-removed read_at containers 0 containers c among good

  remove_orphans_of-removed :
      (orphans : Bool) (read_at : ℕ → ℕ) (left : List Container) (c : Container)
      → orphans ≡ true
      → IsAmong c left
      → (remove_orphans_of engine orphans read_at left).1 ≡ true
      → was_removed c.id (remove_orphans_of engine orphans read_at left).0 ≡ true
  remove_orphans_of-removed true read_at left c given among good =
      remove_containers-removed read_at left c among good
  remove_orphans_of-removed false read_at left c given among good = absurd cc

-- The callbacks may begin and write the variable that they share in any order: if down has no error,
-- it removed each container of the project for whose service a callback began, and every container of
-- the project if orphans are to be removed, at whatever time the goroutines read the variable of
-- their loop.
pub down-removed :
    (engines : ℕ → Engine) (engine : Engine) (read_at : ℕ → ℕ → ℕ) (read_orphan_at : ℕ → ℕ)
    (orphans : Bool) (schedule : List Moment) (containers : List Container) (networks : List String)
    (c : Container)
    → IsAmong c containers
    → (orphans ≡ true) ⊎ (is_begun (label c service_label) schedule ≡ true)
    → (down engines engine read_at read_orphan_at orphans schedule containers networks).1 ≡ true
    → was_removed c.id
        (down engines engine read_at read_orphan_at orphans schedule containers networks).0
      ≡ true
unfolding down remove_services
down-removed engines engine read_at read_orphan_at orphans schedule containers networks c among
      meant good =
    ap (λ t. was_removed c.id t.0) (and_then-good (both walk.trace of_orphans) nets good).0
    ∙ in_first c.id (walk.trace.0 ++ of_orphans.0) nets.0
        (elim (run_walk-IsHeld was_removed was_removed-append act acts c schedule
          (start_walk containers) (among, tt)) [
            | inl achieved ↦ in_first c.id walk.trace.0 of_orphans.0 (achieved goods.0)
            | inr (unbegun, (left, held)) ↦ in_second c.id walk.trace.0 of_orphans.0 (
                remove_orphans_of-removed engine orphans read_orphan_at walk.containers c
                  (are_orphans meant unbegun) left goods.1)
          ])
  where
    act : ℕ → List Container → Trace EngineCall
    act k = remove_containers (engines k) (read_at k)

    acts :
        (k : ℕ) (cs : List Container) (d : Container)
        → IsAmong d cs
        → (act k cs).1 ≡ true
        → was_removed d.id (act k cs).0 ≡ true
    acts k cs d = remove_containers-removed (engines k) (read_at k) cs d

    walk : Walk
    walk = run_walk act schedule (start_walk containers)

    of_orphans : Trace EngineCall
    of_orphans = remove_orphans_of engine orphans read_orphan_at walk.containers

    nets : Trace EngineCall
    nets = remove_networks engine networks

    goods : (walk.trace.1 ≡ true) × (of_orphans.1 ≡ true)
    goods =
        both_good walk.trace.1 of_orphans.1 (and_then-good (both walk.trace of_orphans) nets good).2

    are_orphans :
        (orphans ≡ true) ⊎ (is_begun (label c service_label) schedule ≡ true)
        → is_begun (label c service_label) schedule ≡ false
        → orphans ≡ true
    are_orphans (inl given) unbegun = given
    are_orphans (inr begun) unbegun = absurd (not_both begun unbegun)
