-- ===== src/Compose/Dependencies/Traversal/Liveness.antt =====
-- The walk of local/compose/dependencies.go forgets no service.
use mathlib.Core.Path.{subst}
use mathlib.Core.WellFounded.{Acc}
use compose_cli.Prelude.{
  ==-false, String, ◌≡◌, ◌≢◌, refl, sym, ◌∙◌, Bool, true, false, ◌||◌, Option, none, some,
  Option-cases, not_both, List-cases, Bool-cases, String-cases, ◌⊎◌, inl, inr, List, [], ◌∷◌, ◌++◌,
  arith, ◌==◌, eq_iff,
}
use compose_cli.Prelude.GoMap.{lookup, has}
use compose_cli.Compose.Util.{contains, not-In-nil, In-head}
use compose_cli.Compose.Dependencies.Graph.{Vertex, Graph}
use compose_cli.Compose.Dependencies.Edges.{is_vertex}
use compose_cli.Compose.Dependencies.Traversal.{
  TraversalConfig, Task, scanning, calling, Event, launched, finished, Run, can_start, complete,
  Step, skip, launch, leave, succeed, fail, Reach, here, next, initial_run, SameKeys, first_error,
}
use compose_cli.Compose.Dependencies.Traversal.Direction.{waits_for, IsDirection}
use compose_cli.Compose.Dependencies.Traversal.Starting.{
  IsNamed-SameShape, can_start-false, waits_for-SameShape, SameShape-IsLinked,
}
use compose_cli.Compose.Dependencies.Traversal.Safety.{IsReady, Inv, Reach-Inv, has_finished}

-- The node waits in a loop of `run`, or is in the call of `fn`.
abbrev pub task_has : Task → String → Bool
task_has (scanning ns) k = contains ns k
task_has (calling n) k = n == k

abbrev pub pending : List Task → String → Bool
pending [] k = false
pending (t ∷ ts) k = task_has t k || pending ts k

pending-append :
    (before after : List Task) (k : String)
    → pending (before ++ after) k ≡ (pending before k || pending after k)
pending-append [] after k = ground arith
pending-append (t ∷ before) after k = ground (arith, pending-append before after k)

-- A task is replaced by others that still hold the node.
moved :
    (before after : List Task) (t : Task) (ts : List Task) (k : String)
    → pending (before ++ t ∷ after) k ≡ true
    → (task_has t k ≡ true → pending (ts ++ after) k ≡ true)
    → pending (before ++ (ts ++ after)) k ≡ true
moved before after t ts k old still = elim (Bool-cases (task_has t k)) [
  | inl held ↦ ground (arith, pending-append before (ts ++ after) k, still held)
  | inr free ↦ ground (
    arith,
    pending-append before (t ∷ after) k,
    pending-append before (ts ++ after) k,
    pending-append ts after k,
  )
]

or_true : (a c b : Bool) → b ≡ true → (a || (b || c)) ≡ true
or_true a c b e = ground arith

rest_of :
    (n : String) (ns : List String) (after : List Task) (k : String)
    → n ≢ k
    → contains (n ∷ ns) k ≡ true
    → pending (scanning ns ∷ after) k ≡ true
unfolding contains
rest_of n ns after k other held = ground (arith, eq_iff n k)

module _ {S : Type 0} (name : S → String) (config : TraversalConfig S)
    {edges : Vertex S → List String} (direction : IsDirection config edges) (g : Graph S)
    (ready : IsReady name config direction g) {E : Type 0} where
  -- A node that has not finished is pending, or waits for one that has not finished.
  abbrev Covered : Run S E → String → Type 0
  Covered s k =
      (pending s.tasks k ≡ true)
      ⊎ ((c : String) × (waits_for edges g k c ≡ true) × (has_finished s.log c ≡ false))

  abbrev pub Live : Run S E → Type 0
  Live s =
      s.error ≡ none
      → (k : String) → is_vertex g k ≡ true
      → has_finished s.log k ≡ false
      → Covered s k

  -- Nodes that are neither skipped nor finished stay covered.
  skip_Covered :
      (s : Run S E) (before after : List Task) (n : String) (ns : List String) (k : String)
      → Inv name config direction g s
      → s.tasks ≡ before ++ scanning (n ∷ ns) ∷ after
      → can_start name config s.graph n ≡ some false
      → Covered s k
      → Covered (record s { tasks = before ++ scanning ns ∷ after }) k
  skip_Covered s before after n ns k inv at blocked (inr waits) = inr waits
  skip_Covered s before after n ns k inv at blocked (inl old) = elim (String-cases n k) [
    | inl same ↦
        let (c, waits, waiting) =
          can_start-false name config direction s.graph
            (IsNamed-SameShape name s.graph g inv.shape ready.named) n blocked in
        let waits' = sym (waits_for-SameShape direction s.graph g inv.shape n c) ∙ waits in
        inr (
          c,
          subst (λ j. waits_for edges g j c ≡ true) same waits',
          ground (arith, inv.marked c (direction.closed_lem g n c ready.linked waits'), waiting),
        )
    | inr other ↦ inl (
        moved before after (scanning (n ∷ ns)) (scanning ns ∷ []) k (rw at at old)
          (λ held. rest_of n ns after k other held))
  ]

  launch_Covered :
      (s : Run S E) (before after : List Task) (n : String) (ns : List String) (k : String)
      → s.tasks ≡ before ++ scanning (n ∷ ns) ∷ after
      → Covered s k
      → Covered
          (record s { tasks = before ++ calling n ∷ scanning ns ∷ after; log = launched n ∷ s.log })
          k
  launch_Covered s before after n ns k at (inr waits) = inr waits
  launch_Covered s before after n ns k at (inl old) = inl (
      moved before after (scanning (n ∷ ns)) (calling n ∷ scanning ns ∷ []) k (rw at at old)
        (λ held. both_of n ns after k held))
    where
      both_of :
          (n : String) (ns : List String) (after : List Task) (k : String)
          → contains (n ∷ ns) k ≡ true
          → pending (calling n ∷ scanning ns ∷ after) k ≡ true
      both_of n ns after k held = unfold contains in ground arith

  leave_Covered :
      (s : Run S E) (before after : List Task) (k : String)
      → s.tasks ≡ before ++ scanning [] ∷ after
      → Covered s k
      → Covered (record s { tasks = before ++ after }) k
  leave_Covered s before after k at (inr waits) = inr waits
  leave_Covered s before after k at (inl old) =
      inl
        (moved before after (scanning []) [] k (rw at at old) (λ held. absurd (not-In-nil k held)))

  -- Whoever waited for the node alone is met by the next loop.
  succeed_Covered :
      (s : Run S E) (before after : List Task) (n : String) (v : Vertex S) (ns : List String)
      (k : String)
      → Inv name config direction g s
      → s.tasks ≡ before ++ calling n ∷ after
      → lookup n s.graph.vertices ≡ some v
      → SameKeys ns (config.adjacent_nodes v)
      → has_finished (finished n ∷ s.log) k ≡ false
      → Covered s k
      → Covered
          (record s {
            graph = complete name config s.graph v;
            tasks = before ++ scanning ns ∷ after;
            log = finished n ∷ s.log;
          })
          k
  succeed_Covered s before after n v ns k inv at found same open_node (inl old) = inl (
      moved before after (calling n) (scanning ns ∷ []) k (rw at at old)
        (λ held. absurd (cc (rw held at open_node))))
  succeed_Covered s before after n v ns k inv at found same open_node (inr (c, waits, waiting)) =
      elim (String-cases n c) [
        | inl done_now ↦ inl (
            rw (pending-append before (scanning ns ∷ after) k) (
              or_true (pending before k) (pending after k) (contains ns k) (
                same k
                ∙ direction.adjacent_lem s.graph n k v
                    (SameShape-IsLinked s.graph g inv.shape ready.linked) found
                ∙ waits_for-SameShape direction s.graph g inv.shape k n
                ∙ subst (λ j. waits_for edges g k j ≡ true) (sym done_now) waits)))
        | inr other ↦ inr (c, waits, rw (==-false n c other) waiting)
      ]

  Step-Live :
      {s t : Run S E} → Step name config s t → Inv name config direction g s → Live s → Live t
  Step-Live {s} (skip before after n ns at blocked) inv live = λ fine k vertex open_node.
      skip_Covered s before after n ns k inv at blocked (live fine k vertex open_node)
  Step-Live {s} (launch before after n ns at starts) inv live = λ fine k vertex open_node.
      launch_Covered s before after n ns k at (live fine k vertex open_node)
  Step-Live {s} (leave before after at) inv live =
      λ fine k vertex open_node. leave_Covered s before after k at (live fine k vertex open_node)
  Step-Live {s} (succeed before after n v ns at found same) inv live = λ fine k vertex open_node.
      succeed_Covered s before after n v ns k inv at found same open_node
        (live fine k vertex (not_yet n k s.log open_node))
    where
      not_yet :
          (n k : String) (log : List Event)
          → has_finished (finished n ∷ log) k ≡ false
          → has_finished log k ≡ false
      not_yet n k log open_node = ground arith
  Step-Live {s} (fail before after n e at) inv live = λ fine. absurd (ne_none s.error e fine)
    where
      ne_none : (o : Option E) (e : E) → ¬ (first_error o e ≡ none)
      ne_none none e bad = cc
      ne_none (some old) e bad = cc

  Covered-nil :
      (s : Run S E) (k : String)
      → s.tasks ≡ []
      → Covered s k
      → (c : String) × (waits_for edges g k c ≡ true) × (has_finished s.log c ≡ false)
  Covered-nil s k over (inl p) = absurd (cc (rw over at p))
  Covered-nil s k over (inr waits) = waits

  Live-initial :
      (nodes : List String) → SameKeys nodes (config.extremity_nodes g) → Live (initial_run g nodes)
  unfolding initial_run has
  Live-initial nodes same fine k vertex open_node = elim (Option-cases (lookup k g.vertices)) [
    | inl missing ↦ absurd (cc (rw (missing, has) at vertex))
    | inr (v, found) ↦ elim (List-cases (edges v)) [
      | inl free ↦ inl (ground (arith, same k, direction.extremity_lem g k v found free))
      | inr (c, cs, waits) ↦ inr (c, rw found (rw waits (In-head c cs)), refl)
    ]
  ]

  pub Reach-Live :
      (nodes : List String) {s : Run S E}
      → SameKeys nodes (config.extremity_nodes g)
      → Reach name config (initial_run g nodes) s
      → Live s
  Reach-Live nodes same here = Live-initial nodes same
  Reach-Live nodes same (next r st) =
      Step-Live st (Reach-Inv name config direction g ready nodes r) (Reach-Live nodes same r)

  -- When no goroutine is left and none failed, every node below which all chains end has finished.
  pub all_finished :
      (s : Run S E)
      → Live s
      → s.tasks ≡ []
      → s.error ≡ none
      → (k : String) → Acc (λ c j. waits_for edges g j c ≡ true) k
      → is_vertex g k ≡ true
      → has_finished s.log k ≡ true
  all_finished s live over fine k (Acc.intro _ below) vertex =
      elim (Bool-cases (has_finished s.log k)) [
        | inl done_k ↦ done_k
        | inr open_node ↦
            let (c, waits, waiting) = Covered-nil s k over (live fine k vertex open_node) in
            absurd (
              not_both
                (all_finished s live over fine c (below c waits)
                  (direction.closed_lem g k c ready.linked waits))
                waiting)
      ]
