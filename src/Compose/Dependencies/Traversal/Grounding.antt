-- ===== src/Compose/Dependencies/Traversal/Grounding.antt =====
-- In a graph of local/compose/dependencies.go without cycles every chain of nodes that wait for
-- one another ends, in both directions.
use mathlib.Core.Path.{subst}
use mathlib.Core.WellFounded.{Acc}
use compose_cli.Prelude.{
  ℕ, zero, suc, ◌<◌, String, ◌≡◌, sym, ◌∙◌, true, Bool-cases, inl, inr, List, [], ◌∷◌, ◌++◌, arith,
}
use compose_cli.Prelude.GoMap.{keys, has}
use compose_cli.Compose.Util.{contains, In, In-snoc_cases, not-In-nil}
use compose_cli.Compose.Dependencies.Graph.{Graph, get_children, get_parents}
use compose_cli.Compose.Dependencies.Edges.{is_vertex, IsLinked}
use compose_cli.Compose.Dependencies.Walks.{Edge, Walk, step, more, Walk-snoc, IsAcyclic}
use compose_cli.Compose.Dependencies.Cycles.Fuel.{unseen, unseen-snoc_lt, has-keys}
use compose_cli.Compose.Dependencies.Traversal.Direction.{children_waits, parents_waits, waits_for}

-- A relation on finitely many keys that goes on for ever has a loop.
module _ (ks : List String) (R T : String → String → Type 0)
    (inside : (c k : String) → R c k → In c ks) (one : (c k : String) → R c k → T c k)
    (longer : (c k d : String) → R c k → T k d → T c d) (loop_free : (k : String) → ¬ T k k) where
  grounded :
      (n : ℕ) (k : String) (above : List String)
      → In k ks
      → ((d : String) → In d above → T k d)
      → unseen above ks < n
      → Acc R k
  grounded zero k above present chain enough = absurd (omega arith)
  grounded (suc n) k above present chain enough = elim (Bool-cases (contains above k)) [
    | inl again ↦ absurd (loop_free k (chain k again))
    | inr new ↦ Acc.intro k λ c r.
        grounded n c (above ++ k ∷ []) (inside c k r)
          (λ d met. elim (In-snoc_cases above k d met) [
            | inl old ↦ longer c k d r (chain d old)
            | inr same ↦ subst (T c) same (one c k r)
          ])
          (omega (arith, unseen-snoc_lt above k ks present new))
  ]

  pub finite_chains : (k : String) → In k ks → Acc R k
  finite_chains k present =
      grounded (suc (unseen [] ks)) k [] present (λ d met. absurd (not-In-nil d met)) (omega arith)

module _ {S : Type 0} (g : Graph S) (linked : IsLinked g) (acyclic : IsAcyclic g) where
  starts : (a b : String) → Edge g a b → In a (keys g.vertices)
  unfolding has contains
  starts a b edge = has-keys a g.vertices ∙ ground arith

  ends : (a b : String) → Edge g a b → In b (keys g.vertices)
  ends a b edge = has-keys b g.vertices ∙ linked.closed a b edge

  up : (j c : String) → waits_for get_children g j c ≡ true → Edge g j c
  up j c w = sym (children_waits g j c) ∙ w

  down : (j c : String) → waits_for get_parents g j c ≡ true → Edge g c j
  down j c w = sym (linked.mirrored c j) ∙ sym (parents_waits g j c) ∙ w

  pub up_chains :
      (k : String) → is_vertex g k ≡ true → Acc (λ c j. waits_for get_children g j c ≡ true) k
  up_chains k vertex =
      finite_chains (keys g.vertices) (λ c j. waits_for get_children g j c ≡ true)
        (λ j d. Walk g d j) (λ c j w. ends j c (up j c w)) (λ c j w. step (up j c w))
        (λ c j d w walk. Walk-snoc walk (up j c w)) acyclic k (has-keys k g.vertices ∙ vertex)

  pub down_chains :
      (k : String) → is_vertex g k ≡ true → Acc (λ c j. waits_for get_parents g j c ≡ true) k
  down_chains k vertex =
      finite_chains (keys g.vertices) (λ c j. waits_for get_parents g j c ≡ true)
        (λ j d. Walk g j d) (λ c j w. starts c j (down j c w)) (λ c j w. step (down j c w))
        (λ c j d w walk. more (down j c w) walk) acyclic k (has-keys k g.vertices ∙ vertex)
