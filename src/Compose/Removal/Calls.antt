-- ===== src/Compose/Removal/Calls.antt =====
-- The calls of the engine with which local/compose/down.go removes containers.
use compose_cli.Prelude.{
  String, ◌≡◌, refl, sym, ap, ◌⊎◌, ◌∙◌, Bool, true, false, ◌&&◌, ◌||◌, inl, inr, Bool-cases, List,
  [], ◌∷◌, ◌++◌, arith, eq_iff, ◌==◌, if◌then◌else◌,
}
use compose_cli.Compose.Types.{Container}
use compose_cli.Compose.Containers.{split}
use compose_cli.Compose.Trace.{Trace, and_then}
use compose_cli.Compose.Removal.{EngineCall, stop, remove, remove_network, Moment, begins, ends}

unfoldable pub was_removed : String → List EngineCall → Bool
was_removed id [] = false
was_removed id (stop other ∷ calls) = was_removed id calls
was_removed id (remove other ∷ calls) = if other == id then true else was_removed id calls
was_removed id (remove_network other ∷ calls) = was_removed id calls

pub was_removed-append :
    (id : String) (calls more : List EngineCall)
    → was_removed id (calls ++ more) ≡ (was_removed id calls || was_removed id more)
unfolding was_removed
was_removed-append id [] more = refl
was_removed-append id (stop other ∷ calls) more = was_removed-append id calls more
was_removed-append id (remove other ∷ calls) more = ground (arith, was_removed-append id calls more)
was_removed-append id (remove_network other ∷ calls) more = was_removed-append id calls more

pub in_first :
    (id : String) (calls more : List EngineCall)
    → was_removed id calls ≡ true
    → was_removed id (calls ++ more) ≡ true
in_first id calls more h = was_removed-append id calls more ∙ ap (λ b. b || was_removed id more) h

pub in_second :
    (id : String) (calls more : List EngineCall)
    → was_removed id more ≡ true
    → was_removed id (calls ++ more) ≡ true
in_second id calls more h = ground (arith, was_removed-append id calls more, h)

pub removes_itself : (id : String) → was_removed id (remove id ∷ []) ≡ true
unfolding was_removed
removes_itself id = rw ((eq_iff id id).1 refl) refl

pub both_good : (b c : Bool) → (b && c) ≡ true → (b ≡ true) × (c ≡ true)
both_good true true e = (refl, refl)
both_good true false e = cc
both_good false c e = cc

pub and_then-good :
    (t rest : Trace EngineCall)
    → (and_then t rest).1 ≡ true
    → (and_then t rest ≡ (t.0 ++ rest.0, true)) × (rest.1 ≡ true) × (t.1 ≡ true)
and_then-good (calls, true) rest e = (ap (λ b. (calls ++ rest.0, b)) e, e, refl)
and_then-good (calls, false) rest e = cc

-- The container is one of the list.
abbrev pub IsAmong : Container → List Container → Type 0
IsAmong c [] = ⊥
IsAmong c (d ∷ containers) = (c ≡ d) ⊎ IsAmong c containers

-- A container of the service is in the first part, one of another service in the second.
pub split-right :
    (c : Container) (containers : List Container) (predicate : Container → Bool)
    → predicate c ≡ true
    → IsAmong c containers
    → IsAmong c (split containers predicate).0
unfolding split
split-right c [] predicate match among = among
split-right c (d ∷ containers) predicate match (inl same) =
    rw (sym (ap predicate same) ∙ match) (inl same)
split-right c (d ∷ containers) predicate match (inr later) = elim (Bool-cases (predicate d)) [
  | inl first ↦ rw first (inr (split-right c containers predicate match later))
  | inr other ↦ rw other (split-right c containers predicate match later)
]

pub split-left :
    (c : Container) (containers : List Container) (predicate : Container → Bool)
    → predicate c ≡ false
    → IsAmong c containers
    → IsAmong c (split containers predicate).1
unfolding split
split-left c [] predicate other among = among
split-left c (d ∷ containers) predicate other (inl same) =
    rw (sym (ap predicate same) ∙ other) (inl same)
split-left c (d ∷ containers) predicate other (inr later) = elim (Bool-cases (predicate d)) [
  | inl match ↦ rw match (split-left c containers predicate other later)
  | inr first ↦ rw first (inr (split-left c containers predicate other later))
]

-- A callback for the service begins.
unfoldable pub is_begun : String → List Moment → Bool
is_begun service [] = false
is_begun service (begins other ∷ schedule) = (other == service) || is_begun service schedule
is_begun service (ends k ∷ schedule) = is_begun service schedule
