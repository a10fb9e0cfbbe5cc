-- ===== src/Compose/Containers.antt =====
-- local/compose/containers.go, and `getCanonicalContainerName` of local/compose/compose.go.
use Prim.Native.Char.{code}
use Prim.Native.String.{[] as empty, ◌∷◌ as char_then}
use compose_cli.Prelude.{
  String, Bool, true, false, not, ◌&&◌, Option, none, some, List, [], ◌∷◌, ◌≡◌, refl, eqb, arith,
  eq_iff, ◌==◌, if◌then◌else◌,
}
use compose_cli.Compose.Types.{Container, label, service_label}
use compose_cli.Compose.Util.{contains}

unfoldable pub is_service : List String → Container → Bool
is_service services c = contains services (label c service_label)

pub is_service-label :
    (service : String) (c : Container)
    → is_service (service ∷ []) c ≡ (service == label c service_label)
unfolding is_service contains
is_service-label service c = ground (arith, eq_iff service (label c service_label))

unfoldable pub is_not_service : List String → Container → Bool
is_not_service services c = not (contains services (label c service_label))

unfoldable pub filter : List Container → (Container → Bool) → List Container
filter [] predicate = []
filter (c ∷ containers) predicate =
    let rest = filter containers predicate in if predicate c then c ∷ rest else rest

abbrev put_left : Container → List Container × List Container → List Container × List Container
put_left c (right, left) = (right, c ∷ left)

abbrev put_right : Container → List Container × List Container → List Container × List Container
put_right c (right, left) = (c ∷ right, left)

unfoldable pub split : List Container → (Container → Bool) → List Container × List Container
split [] predicate = ([], [])
split (c ∷ containers) predicate =
    let rest = split containers predicate in
    if predicate c then put_right c rest else put_left c rest

has_slash : String → Bool
has_slash empty = false
has_slash (char_then c s) = if eqb (code c) b'/' then true else has_slash s

-- `name[1:]` where `strings.LastIndex(name, "/") == 0`.
unfoldable pub without_slash : String → Option String
unfolding has_slash
without_slash empty = none
without_slash (char_then c s) = if eqb (code c) b'/' && not (has_slash s) then some s else none

-- `name[1:]`; `none` is a slice out of range.
unfoldable pub drop_first : String → Option String
drop_first empty = none
drop_first (char_then c s) = some s

unfoldable pub first_canonical : List String → Option String
unfolding without_slash
first_canonical [] = none
first_canonical (name ∷ names) = elim (without_slash name) [
  | some s ↦ some s
  | none ↦ first_canonical names
]

-- `none` is a panic: the container has no name, or an empty first one.
unfoldable pub get_canonical_container_name : Container → Option String
unfolding first_canonical drop_first
get_canonical_container_name c = elim (first_canonical c.names) [
  | some s ↦ some s
  | none ↦ elim c.names [ [] ↦ none | name ∷ names ↦ drop_first name ]
]

abbrev named : List String → Container
named names = record { id = ""; names = names; labels = []; state = "" }

canonical_name_tests :
    (get_canonical_container_name (named ("/web/db" ∷ "/db" ∷ [])) ≡ some "db")
    × (get_canonical_container_name (named ("/a/b" ∷ [])) ≡ some "a/b")
    × (get_canonical_container_name (named []) ≡ none)
unfolding get_canonical_container_name
canonical_name_tests = (refl, refl, refl)
