-- ===== src/Compose/Dependencies/Cycles/Sound.antt =====
-- An error of `HasCycles` (local/compose/dependencies.go) names a real cycle.
use mathlib.Core.Path.{subst}
use compose_cli.Prelude.{
  ℕ, zero, suc, String, ◌≡◌, refl, sym, ◌∙◌, some, Option-cases, ◌⊎◌, inl, inr, List, [], ◌∷◌, ◌++◌,
  arith, eq_refl,
}
use compose_cli.Prelude.GoMap.{lookup}
use compose_cli.Compose.Util.{contains, In, In-snoc_cases, In-snoc_left}
use compose_cli.Compose.Dependencies.Graph.{Graph, Vertex}
use compose_cli.Compose.Dependencies.Walks.{Edge, Trail, extend, IsClosedTrail, In-last}
use compose_cli.Compose.Dependencies.Cycles.{
  Outcome, done, cycle_found, Marks, MapOrder, LawfulOrder, visit_children, visit, ◌>>◌,
}

-- The child at which the loop over the children failed, and why.
record Failure (visit_child : List String → String → Outcome Marks)
    (path discovered vs p : List String) : Type 0 where
  child : String
  among : In child vs
  why :
      (In child discovered × (p ≡ path ++ child ∷ []))
      ⊎ (visit_child (path ++ child ∷ []) child ≡ cycle_found p)

later :
    {vc : List String → String → Outcome Marks} {path discovered vs p : List String} (v : String)
    → Failure vc path discovered vs p
    → Failure vc path discovered (v ∷ vs) p
unfolding contains
later v f = record { child = f.child; among = ground (arith, f.among); why = f.why }

now :
    {vc : List String → String → Outcome Marks} {path discovered p : List String} (v : String)
    (vs : List String)
    → (In v discovered × (p ≡ path ++ v ∷ [])) ⊎ (vc (path ++ v ∷ []) v ≡ cycle_found p)
    → Failure vc path discovered (v ∷ vs) p
unfolding contains
now v vs why = record { child = v; among = ground (arith, eq_refl v); why = why }

visit_children_cases :
    (vc : List String → String → Outcome Marks) (path discovered finished vs p : List String)
    (v : String)
    → visit_children vc path discovered finished (v ∷ vs) ≡ cycle_found p
    → (In v discovered × (p ≡ path ++ v ∷ []))
      ⊎ ((vc (path ++ v ∷ []) v ≡ cycle_found p)
          ⊎ (visit_children vc path discovered finished vs ≡ cycle_found p))
unfolding visit_children
visit_children_cases vc path discovered finished vs p v e = ground arith

visit_children-Failure :
    (vc : List String → String → Outcome Marks) (path discovered finished vs p : List String)
    → visit_children vc path discovered finished vs ≡ cycle_found p
    → Failure vc path discovered vs p
visit_children-Failure vc path discovered finished [] p e = absurd (unfold visit_children in cc)
visit_children-Failure vc path discovered finished (v ∷ vs) p e =
    elim (visit_children_cases vc path discovered finished vs p v e) [
      | inl seen ↦ now v vs (inl seen)
      | inr (inl below) ↦ now v vs (inr below)
      | inr (inr rest) ↦ later v (visit_children-Failure vc path discovered finished vs p rest)
    ]

>>-cycle_found :
    {A B : Type 0} (m : Outcome A) (b : B) {p : List String}
    → (m >> done b) ≡ cycle_found p
    → m ≡ cycle_found p
>>-cycle_found (cycle_found q) b e = cc
>>-cycle_found (done a) b e = cc
>>-cycle_found _ b e = cc

module _ {S : Type 0} (order : MapOrder) (g : Graph S) (lawful : LawfulOrder order) where
  -- A failing call looked the vertex up and failed at one of its children.
  visit-Failure :
      (fuel : ℕ) (key : String) (path discovered finished p : List String)
      → visit order g (suc fuel) key path discovered finished ≡ cycle_found p
      → (vertex : Vertex S) × (lookup key g.vertices ≡ some vertex)
        × (visit_children
              (λ path' v. visit order g fuel v path' (discovered ++ key ∷ []) finished)
              path
              (discovered ++ key ∷ [])
              finished
              (order path vertex.children)
            ≡ cycle_found p)
  unfolding visit
  visit-Failure fuel key path discovered finished p e =
      elim (Option-cases (lookup key g.vertices)) [
        | inl missing ↦ absurd (cc (rw (missing, visit) at e))
        | inr (vertex, found) ↦ (vertex, found, >>-cycle_found _ _ (rw (found, visit) at e))
      ]

  pub child-Edge :
      (key : String) (path : List String) (vertex : Vertex S) (v : String)
      → lookup key g.vertices ≡ some vertex
      → In v (order path vertex.children)
      → Edge g key v
  child-Edge key path vertex v found among = rw found (sym (lawful path vertex.children v) ∙ among)

  pub visit-IsClosedTrail :
      (fuel : ℕ) (key : String) (path discovered finished p : List String)
      → Trail g path key
      → ((d : String) → In d discovered → In d path)
      → visit order g fuel key path discovered finished ≡ cycle_found p
      → IsClosedTrail g p
  visit-IsClosedTrail zero key path discovered finished p trail on_path e =
      absurd (unfold visit in cc)
  visit-IsClosedTrail (suc fuel) key path discovered finished p trail on_path e =
      let (vertex, found, failed) = visit-Failure fuel key path discovered finished p e in
      let failure = visit_children-Failure _ path _ finished _ p failed in
      let v = failure.child in
      let edge = child-Edge key path vertex v found failure.among in
      elim failure.why [
        | inl (seen, split) ↦ record {
          before = path;
          from = key;
          last = v;
          split = split;
          trail = trail;
          edge = edge;
          again = marked v seen;
        }
        | inr below ↦
            visit-IsClosedTrail fuel v (path ++ v ∷ []) (discovered ++ key ∷ []) finished p
              (extend v trail edge refl) (λ d seen. In-snoc_left path v d (marked d seen)) below
      ]
    where
      marked : (d : String) → In d (discovered ++ key ∷ []) → In d path
      marked d seen = elim (In-snoc_cases discovered key d seen) [
        | inl old ↦ on_path d old
        | inr same ↦ subst (λ k. In k path) same (In-last trail)
      ]
