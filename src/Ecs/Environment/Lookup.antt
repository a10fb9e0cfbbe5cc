-- ===== src/Ecs/Environment/Lookup.antt =====
-- The value that `createEnvironment` of ecs/convert.go gives to a name.
use mathlib.Core.Option
use compose_cli.Prelude.{
  ℕ, String, ◌≡◌, refl, ap, ◌∙◌, Option, none, some, List, [], ◌∷◌, arith, ◌==◌, if◌then◌else◌,
  eq_iff,
}
use compose_cli.Prelude.GoMap.{GoMap, IsMap, insert-IsMap, lookup, insert, lookup-insert}
use compose_cli.Ecs.Environment.{
  Pointer, to_variable, load_entries, pointer_to, add_own, dereferenced, pairs_of, insert_sorted,
  sort_pairs,
}

lookup-insert_sorted :
    (k name value : String) (pairs : GoMap String)
    → lookup name pairs ≡ none
    → lookup k (insert_sorted name value pairs) ≡ (if name == k then some value else lookup k pairs)
unfolding lookup insert_sorted
lookup-insert_sorted k name value [] fresh = refl
lookup-insert_sorted k name value ((other, held) ∷ pairs) fresh = ground (
  arith,
  fresh,
  eq_iff other name,
  eq_iff other k,
  eq_iff name k,
  lookup-insert_sorted k name value pairs,
)

pub lookup-sort_pairs :
    (k : String) (pairs : GoMap String) → IsMap pairs → lookup k (sort_pairs pairs) ≡ lookup k pairs
unfolding sort_pairs lookup
lookup-sort_pairs k [] distinct = refl
lookup-sort_pairs k ((name, value) ∷ pairs) (fresh, distinct) =
    lookup-insert_sorted k name value (sort_pairs pairs)
      (lookup-sort_pairs name pairs distinct ∙ fresh)
    ∙ rw (lookup-sort_pairs k pairs distinct) refl

pub lookup-pairs_of :
    (k : String) (variables : List String) (environment : GoMap Pointer)
    → lookup k (pairs_of variables environment)
      ≡ Option.map (dereferenced variables) (lookup k environment)
unfolding pairs_of lookup
lookup-pairs_of k variables [] = ground arith
lookup-pairs_of k variables ((j, p) ∷ environment) =
    ground (arith, lookup-pairs_of k variables environment)

pub pairs_of-IsMap :
    (variables : List String) (environment : GoMap Pointer)
    → IsMap environment
    → IsMap (pairs_of variables environment)
unfolding pairs_of
pairs_of-IsMap variables [] distinct = tt
pairs_of-IsMap variables ((k, p) ∷ environment) (fresh, distinct) = (
  lookup-pairs_of k variables environment ∙ ap (Option.map (dereferenced variables)) fresh,
  pairs_of-IsMap variables environment distinct,
)

pub add_own-IsMap :
    (own : GoMap (Option String)) (environment : GoMap Pointer)
    → IsMap environment
    → IsMap (add_own own environment)
unfolding add_own
add_own-IsMap [] environment distinct = distinct
add_own-IsMap ((k, v) ∷ own) environment distinct =
    add_own-IsMap own (insert k (pointer_to v) environment)
      (insert-IsMap k (pointer_to v) environment distinct)

pub load_entries-IsMap :
    (file : ℕ) (entries : List (String × String)) (environment : GoMap Pointer)
    → IsMap environment
    → IsMap (load_entries file entries environment)
unfolding load_entries
load_entries-IsMap file [] environment distinct = distinct
load_entries-IsMap file ((k, v) ∷ entries) environment distinct =
    load_entries-IsMap file entries (insert k (to_variable file) environment)
      (insert-IsMap k (to_variable file) environment distinct)

-- A given entry, or else the one of a map.
abbrev pub or_else : Option Pointer → Option Pointer → Option Pointer
or_else none o = o
or_else (some p) o = some p

pub lookup-add_own :
    (k : String) (own : GoMap (Option String)) (environment : GoMap Pointer)
    → IsMap own
    → lookup k (add_own own environment)
      ≡ or_else (Option.map pointer_to (lookup k own)) (lookup k environment)
unfolding add_own lookup
lookup-add_own k [] environment distinct = ground arith
lookup-add_own k ((j, v) ∷ own) environment (fresh, distinct) = ground (
  arith,
  eq_iff j k,
  fresh,
  lookup-add_own k own (insert j (pointer_to v) environment) distinct,
  lookup-insert j k (pointer_to v) environment,
)

pub lookup-load_entries :
    (k : String) (file : ℕ) (entries : List (String × String)) (environment : GoMap Pointer)
    → lookup k (load_entries file entries environment)
      ≡ (elim (lookup k entries) [ none ↦ lookup k environment | some v ↦ some (to_variable file) ])
unfolding load_entries lookup
lookup-load_entries k file [] environment = refl
lookup-load_entries k file ((j, v) ∷ entries) environment = ground (
  arith,
  eq_iff j k,
  lookup-load_entries k file entries (insert j (to_variable file) environment),
  lookup-insert j k (to_variable file) environment,
)
