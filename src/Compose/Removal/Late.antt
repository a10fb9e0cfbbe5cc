-- ===== src/Compose/Removal/Late.antt =====
-- What the goroutines of `removeContainers` in local/compose/down.go do if all are late.
use compose_cli.Prelude.{
  ℕ, zero, suc, String, ◌≡◌, ◌≢◌, refl, ap, ◌∙◌, true, false, not, some, List, [], ◌∷◌, ◌++◌,
  length, get_elem?, arith, ==-false,
}
use compose_cli.Compose.Types.{Container}
use compose_cli.Compose.Trace.{and_then}
use compose_cli.Compose.Removal.{
  EngineCall, stop, remove, Engine, stop_containers, remove_container, loop_variable, remove_from,
  remove_containers,
}
use compose_cli.Compose.Removal.Calls.{was_removed, IsAmong}
use compose_cli.Compose.Removal.Removed.{remove_containers-removed}
use compose_cli.Compose.Removal.Stopping.{was_stopped}

-- The last container is stopped in the place of each, and each is removed.
abbrev pub late_calls : Container → List Container → List EngineCall
late_calls last [] = []
late_calls last (c ∷ containers) = stop last.id ∷ remove c.id ∷ late_calls last containers

get_elem?-append_suc :
    (front : List Container) (last : Container) (k : ℕ)
    → suc k ≡ length (front ++ last ∷ [])
    → get_elem? (front ++ last ∷ []) k ≡ some last
get_elem?-append_suc [] last zero e = refl
get_elem?-append_suc [] last (suc k) e = absurd (omega (arith, e))
get_elem?-append_suc (c ∷ []) last zero e = absurd (omega (arith, e))
get_elem?-append_suc (c ∷ d ∷ front) last zero e = absurd (omega (arith, e))
get_elem?-append_suc (c ∷ front) last (suc k) e =
    get_elem?-append_suc front last k (omega (arith, e))

unstopped :
    (id : String) (last : Container) (containers : List Container)
    → last.id ≢ id
    → was_stopped id (late_calls last containers) ≡ false
unfolding was_stopped
unstopped id last [] other = refl
unstopped id last (c ∷ containers) other =
    rw (==-false last.id id other) (unstopped id last containers other)

module _ (engine : Engine) (stops : (id : String) → engine.stop_fails id ≡ false)
    (removes : (id : String) → engine.remove_fails id ≡ false) where
  stop_containers-one : (c : Container) → stop_containers engine (c ∷ []) ≡ (stop c.id ∷ [], true)
  unfolding stop_containers
  stop_containers-one c =
      ap (λ b. and_then {Call = EngineCall} (stop c.id ∷ [], not b) ([], true)) (stops c.id)

  remove_container-late :
      (container to_delete : Container)
      → remove_container engine container to_delete
        ≡ (stop container.id ∷ remove to_delete.id ∷ [], true)
  unfolding remove_container
  remove_container-late container to_delete =
      ap (λ t. and_then t (remove to_delete.id ∷ [], not (engine.remove_fails to_delete.id)))
        (stop_containers-one container)
      ∙ ap (λ b. (stop container.id ∷ remove to_delete.id ∷ [], not b)) (removes to_delete.id)

  remove_from-late :
      (read_at : ℕ → ℕ) (all : List Container) (last : Container) (i : ℕ)
      (containers : List Container)
      → ((k : ℕ) → get_elem? all (read_at k) ≡ some last)
      → remove_from engine read_at all i containers ≡ (late_calls last containers, true)
  unfolding remove_from
  remove_from-late read_at all last i [] late = refl
  remove_from-late read_at all last i (c ∷ containers) late =
      rw
        (
          late i,
          remove_container-late last c,
          remove_from-late read_at all last (suc i) containers late,
          loop_variable,
          remove_from,
        )
        refl

  -- If each goroutine reads the variable of the loop when the loop is in its last round, and no call
  -- fails, then the calls are those that stop the last container once for each container and remove
  -- each: every container is removed, but one with another id than the last was not stopped.
  pub remove_containers-late :
      (read_at : ℕ → ℕ) (front : List Container) (last : Container)
      → ((k : ℕ) → suc (read_at k) ≡ length (front ++ last ∷ []))
      → (let t = remove_containers engine read_at (front ++ last ∷ []) in
          (t ≡ (late_calls last (front ++ last ∷ []), true))
          × ((c : Container)
              → IsAmong c (front ++ last ∷ [])
              → (was_removed c.id t.0 ≡ true) × (last.id ≢ c.id → was_stopped c.id t.0 ≡ false)))
  unfolding remove_containers
  remove_containers-late read_at front last late = (
    calls,
    λ c among. (
      remove_containers-removed engine read_at (front ++ last ∷ []) c among (ap (λ t. t.1) calls),
      λ other.
          ap (λ t. was_stopped c.id t.0) calls ∙ unstopped c.id last (front ++ last ∷ []) other,
    ),
  )
    where
      calls :
          remove_from engine read_at (front ++ last ∷ []) 0 (front ++ last ∷ [])
          ≡ (late_calls last (front ++ last ∷ []), true)
      calls =
          remove_from-late read_at (front ++ last ∷ []) last 0 (front ++ last ∷ [])
            (λ k. get_elem?-append_suc front last (read_at k) (late k))
