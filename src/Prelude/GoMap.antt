-- ===== src/Prelude/GoMap.antt =====
-- Go's `map[string]V` as an association list. The order of the list stands for nothing in the
-- program: code that ranges over a map takes the order as an argument.
use compose_cli.Prelude.Lists.{All}
use compose_cli.Prelude.Tests.{◌==◌, if◌then◌else◌}
use Prim.Native.String.{String}
use mathlib.Core.Path.{◌≡◌, refl}
use mathlib.Core.Bool.{Bool, true, false}
use mathlib.Core.Option
use mathlib.Core.Option.{Option, none, some}
use mathlib.Core.List.{List, [], ◌∷◌}
use native.Mathlib.Omega.{arith}
use text.Mathlib.TextEquality.{eq_iff}

abbrev pub GoMap {ℓ} : Type ℓ → Type ℓ
GoMap V = List (String × V)

module _ {ℓ} {V : Type ℓ} where
  -- v, ok := m[k]
  unfoldable pub lookup : String → GoMap V → Option V
  lookup key [] = none
  lookup key ((other, value) ∷ entries) = if other == key then some value else lookup key entries

  -- m[k] = v
  unfoldable pub insert : String → V → GoMap V → GoMap V
  insert key value [] = (key, value) ∷ []
  insert key value ((other, held) ∷ entries) =
      if other == key then (key, value) ∷ entries else (other, held) ∷ insert key value entries

  unfoldable pub keys : GoMap V → List String
  keys [] = []
  keys ((other, value) ∷ entries) = other ∷ keys entries

  pub lookup-insert :
      (key other : String) (value : V) (entries : GoMap V)
      → lookup other (insert key value entries)
        ≡ (if key == other then some value else lookup other entries)
  unfolding lookup insert
  lookup-insert key other value [] = refl
  lookup-insert key other value ((first, held) ∷ entries) = ground (
    arith,
    eq_iff key other,
    eq_iff first key,
    eq_iff first other,
    lookup-insert key other value entries,
  )

  -- A change to the value that the map holds a pointer to.
  unfoldable pub modify : String → (V → V) → GoMap V → GoMap V
  modify key f [] = []
  modify key f ((other, value) ∷ entries) =
      if other == key then (other, f value) ∷ entries else (other, value) ∷ modify key f entries

  pub lookup-modify :
      (key other : String) (f : V → V) (entries : GoMap V)
      → lookup other (modify key f entries)
        ≡ (if key == other then Option.map f (lookup other entries) else lookup other entries)
  unfolding lookup modify
  lookup-modify key other f [] = ground arith
  lookup-modify key other f ((first, held) ∷ entries) = ground (
    arith,
    eq_iff key other,
    eq_iff first key,
    eq_iff first other,
    lookup-modify key other f entries,
  )

  unfoldable pub has : String → GoMap V → Bool
  has key entries = elim (lookup key entries) [ none ↦ false | some value ↦ true ]

  pub has-insert :
      (key other : String) (value : V) (entries : GoMap V)
      → has other (insert key value entries) ≡ (if key == other then true else has other entries)
  unfolding has
  has-insert key other value entries = ground (arith, lookup-insert key other value entries)

  pub has-modify :
      (key other : String) (f : V → V) (entries : GoMap V)
      → has other (modify key f entries) ≡ has other entries
  unfolding has
  has-modify key other f entries = ground (arith, lookup-modify key other f entries)

  -- delete(m, k)
  unfoldable pub erase : String → GoMap V → GoMap V
  erase key [] = []
  erase key ((other, value) ∷ entries) =
      let rest = erase key entries in if other == key then rest else (other, value) ∷ rest

  pub lookup-erase :
      (key other : String) (entries : GoMap V)
      → lookup other (erase key entries) ≡ (if key == other then none else lookup other entries)
  unfolding lookup erase
  lookup-erase key other [] = ground arith
  lookup-erase key other ((first, held) ∷ entries) = ground (
    arith,
    eq_iff key other,
    eq_iff first key,
    eq_iff first other,
    lookup-erase key other entries,
  )

  pub lookup-insert_self :
      (key : String) (value : V) (entries : GoMap V)
      → lookup key (insert key value entries) ≡ some value
  lookup-insert_self key value entries =
      ground (arith, eq_iff key key, lookup-insert key key value entries)

  pub lookup-insert_other :
      (key other : String) (value : V) (entries : GoMap V)
      → (key == other) ≡ false
      → lookup other (insert key value entries) ≡ lookup other entries
  lookup-insert_other key other value entries apart =
      ground (arith, lookup-insert key other value entries)

  -- No key stands twice, as in every map of Go.
  abbrev pub IsMap : GoMap V → Type ℓ
  IsMap [] = Unit
  IsMap ((key, value) ∷ entries) = (lookup key entries ≡ none) × IsMap entries

  pub insert-IsMap :
      (key : String) (value : V) (entries : GoMap V)
      → IsMap entries
      → IsMap (insert key value entries)
  unfolding insert lookup
  insert-IsMap key value [] distinct = (refl, tt)
  insert-IsMap key value ((other, held) ∷ entries) (fresh, distinct) = ground (
    arith,
    eq_iff other key,
    eq_iff key other,
    insert-IsMap key value entries distinct,
    lookup-insert key other value entries,
    fresh,
  )

  -- What holds of each value that is read holds of each entry.
  pub All-lookup {κ} :
      (holds : V → Type κ) (entries : GoMap V)
      → IsMap entries
      → ((key : String) (value : V) → lookup key entries ≡ some value → holds value)
      → All (λ entry. holds entry.1) entries
  unfolding lookup
  All-lookup holds [] distinct of_lookup = tt
  All-lookup holds ((key, value) ∷ entries) (fresh, distinct) of_lookup = (
    of_lookup key value (rw ((eq_iff key key).1 refl) refl),
    All-lookup holds entries distinct
        (λ other held found. of_lookup other held (ground (arith, eq_iff key other, fresh, found))),
  )
