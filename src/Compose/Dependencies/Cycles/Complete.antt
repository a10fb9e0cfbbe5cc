-- ===== src/Compose/Dependencies/Cycles/Complete.antt =====
-- Where `visit` (local/compose/dependencies.go) reports no cycle, every walk is finite.
use mathlib.Core.Path.{subst}
use mathlib.Core.WellFounded.{Acc}
use compose_cli.Prelude.{
  ℕ, zero, suc, String, ◌≡◌, refl, ◌∙◌, some, Option-cases, ◌⊎◌, inl, inr, List, [], ◌∷◌, ◌++◌,
  arith,
}
use compose_cli.Prelude.GoMap.{lookup}
use compose_cli.Compose.Util.{not-In-nil, In-cons_cases, remove, In, In-snoc_cases}
use compose_cli.Compose.Dependencies.Graph.{Graph, Vertex}
use compose_cli.Compose.Dependencies.Walks.{Edge, Grounded}
use compose_cli.Compose.Dependencies.Cycles.{
  Outcome, done, cycle_found, nil_dereference, out_of_fuel, Marks, MapOrder, LawfulOrder,
  visit_children, visit, ◌>>◌,
}

pub >>-done :
    {A B : Type 0} (m : Outcome A) (b c : B)
    → (m >> done b) ≡ done c
    → (a : A) × (m ≡ done a) × (c ≡ b)
>>-done (done a) b c e = (a, refl, cc)
>>-done (cycle_found p) b c e = cc
>>-done nil_dereference b c e = cc
>>-done out_of_fuel b c e = cc

-- One round of a loop that ended with no error.
visit_children-cons :
    (vc : List String → String → Outcome Marks) (path discovered finished vs : List String)
    (v : String)
    → visit_children vc path discovered finished (v ∷ vs) ≡ done tt
    → (In v finished ⊎ ((m : Marks) × (vc (path ++ v ∷ []) v ≡ done m)))
      × (visit_children vc path discovered finished vs ≡ done tt)
unfolding visit_children
visit_children-cons vc path discovered finished vs v e = ground arith

-- A child that the loop passed over was finished, or its call returned.
visit_children-done :
    (vc : List String → String → Outcome Marks) (path discovered finished vs : List String)
    (v : String)
    → visit_children vc path discovered finished vs ≡ done tt
    → In v vs
    → In v finished ⊎ ((m : Marks) × (vc (path ++ v ∷ []) v ≡ done m))
visit_children-done vc path discovered finished [] v e among = absurd (not-In-nil v among)
visit_children-done vc path discovered finished (w ∷ vs) v e among =
    let (first, rest) = visit_children-cons vc path discovered finished vs w e in
    elim (In-cons_cases w v vs among) [
      | inl same ↦
          subst (λ u. In u finished ⊎ ((m : Marks) × (vc (path ++ u ∷ []) u ≡ done m))) same first
      | inr tail ↦ visit_children-done vc path discovered finished vs v rest tail
    ]

module _ {S : Type 0} (order : MapOrder) (g : Graph S) where
  pub visit-done :
      (fuel : ℕ) (key : String) (path discovered finished : List String) (m : Marks)
      → visit order g (suc fuel) key path discovered finished ≡ done m
      → (vertex : Vertex S) × (lookup key g.vertices ≡ some vertex)
        × (visit_children
              (λ path' v. visit order g fuel v path' (discovered ++ key ∷ []) finished)
              path
              (discovered ++ key ∷ [])
              finished
              (order path vertex.children)
            ≡ done tt)
        × (m ≡ (remove (discovered ++ key ∷ []) key, finished ++ key ∷ []))
  unfolding visit
  visit-done fuel key path discovered finished m e = elim (Option-cases (lookup key g.vertices)) [
    | inl missing ↦ absurd (cc (rw (missing, visit) at e))
    | inr (vertex, found) ↦
        let (u, passed, same) = >>-done _ _ _ (rw (found, visit) at e) in
        (vertex, found, passed, same)
  ]

  abbrev pub AllGrounded : List String → Type 0
  AllGrounded ks = (k : String) → In k ks → Grounded g k

  pub AllGrounded-snoc :
      (ks : List String) (k : String) → AllGrounded ks → Grounded g k → AllGrounded (ks ++ k ∷ [])
  AllGrounded-snoc ks k all new j here = elim (In-snoc_cases ks k j here) [
    | inl old ↦ all j old
    | inr same ↦ subst (Grounded g) same new
  ]

  pub visit-Grounded :
      LawfulOrder order
      → (fuel : ℕ) (key : String) (path discovered finished : List String) (m : Marks)
      → AllGrounded finished
      → visit order g fuel key path discovered finished ≡ done m
      → Grounded g key
  visit-Grounded lawful zero key path discovered finished m all e = absurd (unfold visit in cc)
  visit-Grounded lawful (suc fuel) key path discovered finished m all e =
      let (vertex, found, passed, _) = visit-done fuel key path discovered finished m e in
      Acc.intro key λ c edge.
        elim (visit_children-done _ path _ finished _ c passed (among vertex found c edge)) [
          | inl old ↦ all c old
          | inr (m', returned) ↦
              visit-Grounded lawful fuel c (path ++ c ∷ []) (discovered ++ key ∷ []) finished m' all
                returned
        ]
    where
      among :
          (vertex : Vertex S)
          → lookup key g.vertices ≡ some vertex
          → (c : String) → Edge g key c
          → In c (order path vertex.children)
      among vertex found c edge = lawful path vertex.children c ∙ (rw found at edge)
