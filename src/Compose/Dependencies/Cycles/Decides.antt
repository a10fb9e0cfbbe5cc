-- ===== src/Compose/Dependencies/Cycles/Decides.antt =====
-- `HasCycles` (local/compose/dependencies.go) decides whether the graph has a cycle: it neither
-- runs out of fuel nor dereferences nil, and both of its answers are right.
use mathlib.Core.Path.{subst}
use compose_cli.Prelude.{
  ℕ, suc, ◌<◌, String, ◌≡◌, refl, sym, ap, ◌∙◌, true, false, Bool-cases, ◌⊎◌, inl, inr, List, [],
  ◌∷◌, ◌++◌, arith, eq_refl, length,
}
use compose_cli.Prelude.GoMap.{keys, has}
use compose_cli.Compose.Util.{contains, remove, In, In-head, In-tail, not-In-nil, In-cons_cases}
use compose_cli.Compose.Dependencies.Graph.{Graph}
use compose_cli.Compose.Dependencies.Edges.{is_vertex, IsLinked}
use compose_cli.Compose.Dependencies.Walks.{
  Walk, step, more, Edge, Grounded, start, IsClosedTrail, IsAcyclic, Grounded-not-Walk,
}
use compose_cli.Compose.Dependencies.Cycles.{
  Outcome, done, cycle_found, nil_dereference, out_of_fuel, MapOrder, LawfulOrder, visit, visit_all,
  has_cycles,
}
use compose_cli.Compose.Dependencies.Cycles.Sound.{visit-IsClosedTrail}
use compose_cli.Compose.Dependencies.Cycles.Complete.{
  visit-done, visit-Grounded, AllGrounded, AllGrounded-snoc,
}
use compose_cli.Compose.Dependencies.Cycles.Fuel.{
  IsDecided, unseen, unseen-nil, has-keys, visit-IsDecided,
}

decided_cases :
    {A : Type 0} (m : Outcome A)
    → IsDecided m
    → ((a : A) × (m ≡ done a)) ⊎ ((p : List String) × (m ≡ cycle_found p))
decided_cases (done a) d = inl (a, refl)
decided_cases (cycle_found p) d = inr (p, refl)
decided_cases nil_dereference d = absurd d
decided_cases out_of_fuel d = absurd d

remove-singleton : (k : String) → remove (k ∷ []) k ≡ []
unfolding remove
remove-singleton k = rw (eq_refl k)

module _ {S : Type 0} (order : MapOrder) (g : Graph S) (lawful : LawfulOrder order)
    (linked : IsLinked g) where
  -- What one round of the loop of `HasCycles` is about: no vertex is discovered between rounds.
  visit_verdict :
      (key : String) (finished : List String)
      → is_vertex g key ≡ true
      → AllGrounded order g finished
      → ((visit order g (suc (length (keys g.vertices))) key (key ∷ []) [] finished
            ≡ done ([], finished ++ key ∷ []))
          × Grounded g key)
        ⊎ ((p : List String) × (visit order g
                (suc (length (keys g.vertices)))
                key
                (key ∷ [])
                []
                finished
              ≡ cycle_found p)
            × IsClosedTrail g p)
  visit_verdict key finished vertex all =
      elim (decided_cases _ (
        visit-IsDecided order g lawful linked fuel key (key ∷ []) [] finished vertex none_marked
          enough)) [
            | inl (m, returned) ↦
                let (v, found, passed, same) =
                  visit-done order g (length (keys g.vertices)) key (key ∷ []) [] finished m
                    returned in
                inl (
                  returned ∙ ap done (same ∙ rw (remove-singleton key)),
                  visit-Grounded order g lawful fuel key (key ∷ []) [] finished m all returned,
                )
            | inr (p, failed) ↦ inr (
              p,
              failed,
              visit-IsClosedTrail order g lawful fuel key (key ∷ []) [] finished p (start key)
                  (λ d seen. absurd (not-In-nil d seen)) failed,
            )
          ]
    where
      fuel : ℕ
      fuel = suc (length (keys g.vertices))

      none_marked : contains [] key ≡ false
      none_marked = unfold contains in refl

      enough : unseen [] (keys g.vertices) < fuel
      enough = omega (arith, unseen-nil (keys g.vertices))

  -- Either no cycle is reported and all walks from the vertices are finite, or a cycle is.
  abbrev Verdict : List String → Outcome (Unit {0}) → Type 0
  Verdict ks (done a) = AllGrounded order g ks
  Verdict ks (cycle_found p) = IsClosedTrail g p
  Verdict ks nil_dereference = ⊥
  Verdict ks out_of_fuel = ⊥

  Verdict-cons :
      (key : String) (ks : List String) (o : Outcome (Unit {0}))
      → Grounded g key
      → Verdict ks o
      → Verdict (key ∷ ks) o
  Verdict-cons key ks (done a) first rest = λ k here. elim (In-cons_cases key k ks here) [
    | inl same ↦ subst (Grounded g) same first
    | inr tail ↦ rest k tail
  ]
  Verdict-cons key ks (cycle_found p) first rest = rest
  Verdict-cons key ks nil_dereference first rest = rest
  Verdict-cons key ks out_of_fuel first rest = rest

  visit_all-Verdict :
      (ks finished : List String)
      → ((k : String) → In k ks → is_vertex g k ≡ true)
      → AllGrounded order g finished
      → Verdict ks (visit_all order g (suc (length (keys g.vertices))) ks ([], finished))
  unfolding visit_all contains
  visit_all-Verdict [] finished vertices all = λ k here. absurd (not-In-nil k here)
  visit_all-Verdict (key ∷ ks) finished vertices all =
      let later = λ (k : String) (here : In k ks). vertices k (In-tail key k ks here) in
      elim (Bool-cases (contains finished key)) [
        | inl old ↦
            rw old (Verdict-cons key ks _ (all key old) (visit_all-Verdict ks finished later all))
        | inr new ↦ elim (visit_verdict key finished (vertices key (In-head key ks)) all) [
          | inl (returned, grounded) ↦
              rw (new, returned)
                (Verdict-cons key ks _ grounded (
                  visit_all-Verdict ks (finished ++ key ∷ []) later
                    (AllGrounded-snoc order g finished key all grounded)))
          | inr (p, failed, closed) ↦ rw (new, failed) closed
        ]
      ]

  order-In : (k : String) → In k (order [] (keys g.vertices)) → is_vertex g k ≡ true
  order-In k here = sym (has-keys k g.vertices) ∙ sym (lawful [] (keys g.vertices) k) ∙ here

  -- A walk starts at a vertex of the graph.
  Edge-is_vertex : (a b : String) → Edge g a b → is_vertex g a ≡ true
  unfolding has contains
  Edge-is_vertex a b edge = ground arith

  AllGrounded-IsAcyclic : AllGrounded order g (order [] (keys g.vertices)) → IsAcyclic g
  AllGrounded-IsAcyclic all k w =
      Grounded-not-Walk k (all k (lawful [] (keys g.vertices) k ∙ has-keys k g.vertices ∙ starts w))
        w
    where
      starts : {a b : String} → Walk g a b → is_vertex g a ≡ true
      starts (step e) = Edge-is_vertex _ _ e
      starts (more e w') = Edge-is_vertex _ _ e

  Verdict-answer :
      (o : Outcome (Unit {0}))
      → Verdict (order [] (keys g.vertices)) o
      → ((o ≡ done tt) × IsAcyclic g)
        ⊎ ((p : List String) × (o ≡ cycle_found p) × IsClosedTrail g p)
  Verdict-answer (done a) v = inl (refl, AllGrounded-IsAcyclic v)
  Verdict-answer (cycle_found p) v = inr (p, refl, v)
  Verdict-answer nil_dereference v = absurd v
  Verdict-answer out_of_fuel v = absurd v

  -- On a linked graph, whatever order the maps are ranged over in, `has_cycles` either answers
  -- that there is no cycle, and no vertex has a walk back to itself, or it reports a path of the
  -- graph that returns to one of its own vertices. It never runs out of fuel and never
  -- dereferences nil.
  pub has_cycles_decides :
      ((has_cycles order g ≡ done tt) × IsAcyclic g)
      ⊎ ((p : List String) × (has_cycles order g ≡ cycle_found p) × IsClosedTrail g p)
  unfolding has_cycles
  has_cycles_decides = Verdict-answer (has_cycles order g) (
      visit_all-Verdict (order [] (keys g.vertices)) [] order-In
        (λ k here. absurd (not-In-nil k here)))
