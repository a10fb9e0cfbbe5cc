-- ===== src/Compose/Dependencies/Cycles.antt =====
-- `HasCycles` and the recursive `visit` of local/compose/dependencies.go.
--
-- Go ranges over a map in an arbitrary order. `order path keys` is the order in which the call of
-- `visit` with this path goes through the keys of `Children`, and `order [] keys` the order in
-- which `HasCycles` goes through `Vertices`; of one run of `HasCycles` no two calls have the same
-- path. The recursion of `visit` is on fuel, one more than the number of vertices; Fuel is about
-- what it needs. The error's text is the path, before `strings.Join`.
pub mod Sound
pub mod Complete
pub mod Fuel
pub mod Decides
pub mod Tests
use compose_cli.Prelude.{
  ℕ, ◌≡◌, zero, suc, ◌+◌, String, Bool, true, false, Option, none, some, List, [], ◌∷◌, ◌++◌, not,
  ◌&&◌, if◌then◌else◌, length,
}
use compose_cli.Prelude.GoMap.{lookup, keys}
use compose_cli.Compose.Util.{contains, remove}
use compose_cli.Compose.Dependencies.Graph.{Graph}

-- A result, the error of a cycle with its path, a nil dereference, or no more fuel.
pub data Outcome (A : Type 0) : Type 0 where
  done : A → Outcome A
  cycle_found : List String → Outcome A
  nil_dereference : Outcome A
  out_of_fuel : Outcome A

infixl 5 ◌>>=◌ ◌>>◌
abbrev pub ◌>>=◌ : {A B : Type 0} → Outcome A → (A → Outcome B) → Outcome B
done a >>= f = f a
cycle_found path >>= f = cycle_found path
nil_dereference >>= f = nil_dereference
out_of_fuel >>= f = out_of_fuel

abbrev pub ◌>>◌ : {A B : Type 0} → Outcome A → Outcome B → Outcome B
m >> n = m >>= λ _. n

-- The slices `discovered` and `finished`.
abbrev pub Marks : Type 0
Marks = List String × List String

abbrev pub MapOrder : Type 0
MapOrder = List String → List String → List String

-- What the language promises of a range over a map: it goes through the keys of the map.
abbrev pub LawfulOrder : MapOrder → Type 0
LawfulOrder order =
    (path ks : List String) (k : String) → contains (order path ks) k ≡ contains ks k

-- The loop of `visit` over the children. `visit_child` is the recursive call: its slices are
-- dropped, its error is passed on.
unfoldable pub visit_children :
    (List String → String → Outcome Marks)
    → List String
    → List String
    → List String
    → List String
    → Outcome (Unit {0})
visit_children visit_child path discovered finished [] = done tt
visit_children visit_child path discovered finished (v ∷ vs) =
    let rest = visit_children visit_child path discovered finished vs in
    let path' = path ++ v ∷ [] in
    if contains discovered v
    then cycle_found path'
    else if contains finished v
    then rest
    else visit_child path' v >> rest

module _ {S : Type 0} (order : MapOrder) (g : Graph S) where
  unfoldable pub visit : ℕ → String → List String → List String → List String → Outcome Marks
  visit zero key path discovered finished = out_of_fuel
  visit (suc fuel) key path discovered finished =
      let discovered' = discovered ++ key ∷ [] in
      elim (lookup key g.vertices) [
        | none ↦ nil_dereference
        | some vertex ↦ (do
          visit_children (λ path' v. visit fuel v path' discovered' finished) path discovered'
              finished (order path vertex.children)
          done (remove discovered' key, finished ++ key ∷ []))
      ]

  -- The loop of `HasCycles` over the vertices.
  unfoldable pub visit_all : ℕ → List String → Marks → Outcome (Unit {0})
  visit_all fuel [] marks = done tt
  visit_all fuel (key ∷ ks) (discovered, finished) =
      if not (contains discovered key) && not (contains finished key)
      then (do marks' ← visit fuel key (key ∷ []) discovered finished; visit_all fuel ks marks')
      else visit_all fuel ks (discovered, finished)

  -- `done tt` stands for `false, nil`, and `cycle_found path` for `true, err`.
  unfoldable pub has_cycles : Outcome (Unit {0})
  unfolding visit_all keys
  has_cycles = visit_all (suc (length (keys g.vertices))) (order [] (keys g.vertices)) ([], [])
