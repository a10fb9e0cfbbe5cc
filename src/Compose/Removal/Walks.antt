-- ===== src/Compose/Removal/Walks.antt =====
-- What becomes of a container in the walks of local/compose/down.go and stop.go, whose callbacks
-- share the variable `containers`.
use mathlib.Core.Path.{subst}
use compose_cli.Prelude.{
  ℕ, zero, suc, String, ◌≡◌, refl, ◌∙◌, ◌⊎◌, inl, inr, Bool, true, false, ◌||◌, Bool-cases,
  Option-cases, some, List, [], ◌∷◌, ◌++◌, All, All-append, length, get_elem?, arith, ◌==◌,
}
use compose_cli.Compose.Types.{Container, label, service_label}
use compose_cli.Compose.Containers.{is_service, is_service-label, split}
use compose_cli.Compose.Trace.{Trace, both}
use compose_cli.Compose.Removal.{EngineCall, Moment, begins, ends, Walk, at_moment, run_walk}
use compose_cli.Compose.Removal.Calls.{both_good, IsAmong, split-right, split-left, is_begun}

All-at {ℓ} :
    {A : Type 0} (holds : A → Type ℓ) (entries : List A) (k : ℕ) (a : A)
    → All holds entries
    → get_elem? entries k ≡ some a
    → holds a
All-at holds [] k a all found = cc
All-at holds (b ∷ entries) zero a (of_b, all) found = subst holds (cc found) of_b
All-at holds (b ∷ entries) (suc k) a (of_b, all) found = All-at holds entries k a all found

module _ (achieved : String → List EngineCall → Bool)
    (achieved-append : (id : String) (calls more : List EngineCall)
      → achieved id (calls ++ more) ≡ (achieved id calls || achieved id more))
    (act : ℕ → List Container → Trace EngineCall)
    (acts : (k : ℕ) (containers : List Container) (c : Container)
      → IsAmong c containers
      → (act k containers).1 ≡ true
      → achieved c.id (act k containers).0 ≡ true)
    (c : Container) where
  -- The calls are made for the container, if none failed.
  abbrev pub IsAchieved : Trace EngineCall → Type 0
  IsAchieved t = t.1 ≡ true → achieved c.id t.0 ≡ true

  pub IsAchieved-first : (t more : Trace EngineCall) → IsAchieved t → IsAchieved (both t more)
  IsAchieved-first t more h good =
      ground (arith, achieved-append c.id t.0 more.0, h (both_good t.1 more.1 good).0)

  pub IsAchieved-second : (t more : Trace EngineCall) → IsAchieved more → IsAchieved (both t more)
  IsAchieved-second t more h good =
      ground (arith, achieved-append c.id t.0 more.0, h (both_good t.1 more.1 good).1)

  -- The container is in the variable, and in all that will be written to it.
  abbrev pub IsHeld : Walk → Type 0
  IsHeld w = IsAmong c w.containers × All (IsAmong c) w.held

  at_moment-IsAchieved :
      (w : Walk) (m : Moment) → IsAchieved w.trace → IsAchieved (at_moment act w m).trace
  at_moment-IsAchieved w (begins service) h = IsAchieved-first w.trace _ h
  at_moment-IsAchieved w (ends k) h = h

  own_callback :
      (w : Walk) (service : String)
      → (service == label c service_label) ≡ true
      → IsHeld w
      → IsAchieved (at_moment act w (begins service)).trace
  own_callback w service own (among, all) =
      let part = (split w.containers (is_service (service ∷ []))).0 in
      IsAchieved-second w.trace (act (length w.held) part) (
        acts (length w.held) part c (
          split-right c w.containers (is_service (service ∷ [])) (is_service-label service c ∙ own)
            among))

  other_callback :
      (w : Walk) (service : String)
      → (service == label c service_label) ≡ false
      → IsHeld w
      → IsHeld (at_moment act w (begins service))
  other_callback w service other (among, all) = (
    among,
    All-append (IsAmong c) w.held _ all (
      split-left c w.containers (is_service (service ∷ [])) (is_service-label service c ∙ other)
          among,
      tt,
    ),
  )

  written : (w : Walk) (k : ℕ) → IsHeld w → IsHeld (at_moment act w (ends k))
  written w k (among, all) = elim (Option-cases (get_elem? w.held k)) [
    | inl nothing ↦ (rw (nothing, at_moment) among, all)
    | inr (others, found) ↦
        (rw (found, at_moment) (All-at (IsAmong c) w.held k others all found), all)
  ]

  pub run_walk-IsAchieved :
      (schedule : List Moment) (w : Walk)
      → IsAchieved w.trace
      → IsAchieved (run_walk act schedule w).trace
  unfolding run_walk
  run_walk-IsAchieved [] w h = h
  run_walk-IsAchieved (m ∷ schedule) w h =
      run_walk-IsAchieved schedule (at_moment act w m) (at_moment-IsAchieved w m h)

  -- A container is seen to by the callback of its service, or else is left in the variable.
  pub run_walk-IsHeld :
      (schedule : List Moment) (w : Walk)
      → IsHeld w
      → IsAchieved (run_walk act schedule w).trace
        ⊎ ((is_begun (label c service_label) schedule ≡ false) × IsHeld (run_walk act schedule w))
  unfolding run_walk is_begun
  run_walk-IsHeld [] w held = inr (refl, held)
  run_walk-IsHeld (ends k ∷ schedule) w held =
      run_walk-IsHeld schedule (at_moment act w (ends k)) (written w k held)
  run_walk-IsHeld (begins service ∷ schedule) w held =
      elim (Bool-cases (service == label c service_label)) [
        | inl own ↦ inl (
            run_walk-IsAchieved schedule (at_moment act w (begins service))
              (own_callback w service own held))
        | inr other ↦
            elim (run_walk-IsHeld schedule (at_moment act w (begins service))
              (other_callback w service other held)) [
                | inl done ↦ inl done
                | inr (unbegun, left) ↦ inr (rw other unbegun, left)
              ]
      ]
