-- ===== src/Compose/Dependencies/Cycles/Fuel.antt =====
-- The fuel of `HasCycles` (local/compose/dependencies.go) is enough: each nested call of `visit`
-- marks one more vertex as discovered.
use compose_cli.Prelude.{
  ℕ, zero, suc, ◌≤◌, ◌<◌, String, ◌≡◌, refl, ap, ◌∙◌, true, false, none, Option-cases, Bool-cases,
  inl, inr, List, [], ◌∷◌, ◌++◌, arith, eq_iff, length, if◌then◌else◌,
}
use compose_cli.Prelude.GoMap.{GoMap, lookup, keys, has}
use compose_cli.Compose.Util.{
  contains, In, In-head, In-tail, not-In-nil, In-cons_cases, contains-snoc,
}
use compose_cli.Compose.Dependencies.Graph.{Graph}
use compose_cli.Compose.Dependencies.Edges.{is_vertex, IsLinked}
use compose_cli.Compose.Dependencies.Cycles.{
  Outcome, done, cycle_found, nil_dereference, out_of_fuel, Marks, MapOrder, LawfulOrder,
  visit_children, visit, ◌>>◌,
}
use compose_cli.Compose.Dependencies.Cycles.Sound.{child-Edge}

abbrev pub IsDecided : {A : Type 0} → Outcome A → Type 0
IsDecided (done a) = Unit
IsDecided (cycle_found path) = Unit
IsDecided nil_dereference = ⊥
IsDecided out_of_fuel = ⊥

-- How many of the keys are not discovered.
abbrev pub unseen : List String → List String → ℕ
unseen discovered [] = 0
unseen discovered (k ∷ ks) =
    if contains discovered k then unseen discovered ks else suc (unseen discovered ks)

unseen-snoc_le :
    (discovered : List String) (key : String) (ks : List String)
    → unseen (discovered ++ key ∷ []) ks ≤ unseen discovered ks
unseen-snoc_le discovered key [] = omega arith
unseen-snoc_le discovered key (k ∷ ks) =
    ground (arith, contains-snoc discovered key k, unseen-snoc_le discovered key ks)

pub unseen-snoc_lt :
    (discovered : List String) (key : String) (ks : List String)
    → In key ks
    → contains discovered key ≡ false
    → unseen (discovered ++ key ∷ []) ks < unseen discovered ks
unseen-snoc_lt discovered key [] here new = absurd (not-In-nil key here)
unseen-snoc_lt discovered key (k ∷ ks) here new = elim (In-cons_cases k key ks here) [
  | inl same ↦
      ground (
        arith,
        contains-snoc discovered key k,
        unseen-snoc_le discovered key ks,
        eq_iff key k,
        same,
      )
  | inr tail ↦
      ground (arith, contains-snoc discovered key k, unseen-snoc_lt discovered key ks tail new)
]

pub unseen-nil : (ks : List String) → unseen [] ks ≡ length ks
unfolding contains
unseen-nil [] = refl
unseen-nil (k ∷ ks) = ap suc (unseen-nil ks)

pub has-keys : {V : Type 0} (k : String) (m : GoMap V) → contains (keys m) k ≡ has k m
unfolding contains keys has lookup
has-keys k [] = refl
has-keys k ((j, v) ∷ m) = ground (arith, has-keys k m)

>>-IsDecided :
    {A B : Type 0} (m : Outcome A) (n : Outcome B) → IsDecided m → IsDecided n → IsDecided (m >> n)
>>-IsDecided (done a) n hm hn = hn
>>-IsDecided (cycle_found p) n hm hn = tt
>>-IsDecided nil_dereference n hm hn = hm
>>-IsDecided out_of_fuel n hm hn = hm

visit_children-IsDecided :
    (vc : List String → String → Outcome Marks) (path discovered finished vs : List String)
    → ((v : String) → In v vs → contains discovered v ≡ false → IsDecided (vc (path ++ v ∷ []) v))
    → IsDecided (visit_children vc path discovered finished vs)
unfolding visit_children
visit_children-IsDecided vc path discovered finished [] calls = tt
visit_children-IsDecided vc path discovered finished (v ∷ vs) calls =
    let rest =
      visit_children-IsDecided vc path discovered finished vs
        (λ u here. calls u (In-tail v u vs here)) in
    elim (Bool-cases (contains discovered v)) [
      | inl seen ↦ rw seen tt
      | inr new ↦ elim (Bool-cases (contains finished v)) [
        | inl old ↦ rw (new, old) rest
        | inr open_child ↦ rw (new, open_child) (>>-IsDecided _ _ (calls v (In-head v vs) new) rest)
      ]
    ]

has_nothing : {V : Type 0} (k : String) (m : GoMap V) → lookup k m ≡ none → ¬ (has k m ≡ true)
unfolding has
has_nothing k m missing here = cc (rw (missing, has) at here)

module _ {S : Type 0} (order : MapOrder) (g : Graph S) (lawful : LawfulOrder order)
    (linked : IsLinked g) where
  -- The search from a vertex that is not discovered ends, with a cycle or without, if there is fuel
  -- for more nested calls than there are vertices that are not discovered; it meets no key without a
  -- vertex. Conditions: the edges of the graph lead to vertices, and a range over a map has its keys.
  pub visit-IsDecided :
      (fuel : ℕ) (key : String) (path discovered finished : List String)
      → is_vertex g key ≡ true
      → contains discovered key ≡ false
      → unseen discovered (keys g.vertices) < fuel
      → IsDecided (visit order g fuel key path discovered finished)
  unfolding visit
  visit-IsDecided zero key path discovered finished vertex new enough = absurd (omega arith)
  visit-IsDecided (suc fuel) key path discovered finished vertex new enough =
      elim (Option-cases (lookup key g.vertices)) [
        | inl missing ↦ absurd (has_nothing key g.vertices missing vertex)
        | inr (v, found) ↦
            rw (found, visit)
              (>>-IsDecided _ _
                (visit_children-IsDecided _ path (discovered ++ key ∷ []) finished
                  (order path v.children)
                  (λ c among unmarked.
                    visit-IsDecided fuel c (path ++ c ∷ []) (discovered ++ key ∷ []) finished
                      (linked.closed key c (child-Edge order g lawful key path v c found among))
                      unmarked
                      (omega (arith, unseen-snoc_lt discovered key (keys g.vertices) present new))))
                tt)
      ]
    where
      present : In key (keys g.vertices)
      present = has-keys key g.vertices ∙ vertex
