-- ===== src/Compose/Dependencies/Walks.antt =====
-- Walks along the edges of the graph of local/compose/dependencies.go, and graphs without cycles.
use mathlib.Core.WellFounded.{Acc}
use compose_cli.Prelude.{String, ◌≡◌, true, ◌⊎◌, inl, inr, List, [], ◌∷◌, ◌++◌}
use compose_cli.Compose.Util.{In, In-snoc_cases, In-snoc_self, In-singleton}
use compose_cli.Compose.Dependencies.Graph.{Graph}
use compose_cli.Compose.Dependencies.Edges.{is_child}

module _ {S : Type 0} where
  abbrev pub Edge : Graph S → String → String → Type 0
  Edge g a b = is_child g a b ≡ true

  -- A walk of at least one edge.
  pub data Walk (g : Graph S) : String → String → Type 0 where
    step : {a b : String} → Edge g a b → Walk g a b
    more : {a b c : String} → Edge g a b → Walk g b c → Walk g a c

  abbrev pub IsAcyclic : Graph S → Type 0
  IsAcyclic g = (k : String) → ¬ Walk g k k

  pub Walk-snoc : {g : Graph S} {a b c : String} → Walk g a b → Edge g b c → Walk g a c
  Walk-snoc (step e) last = more e (step last)
  Walk-snoc (more e w) last = more e (Walk-snoc w last)

  -- `path` lists the vertices of a walk that ends at the second argument.
  pub data Trail (g : Graph S) : List String → String → Type 0 where
    start : (k : String) → Trail g (k ∷ []) k
    extend :
        {path longer : List String} {a : String} (b : String)
        → Trail g path a
        → Edge g a b
        → longer ≡ path ++ b ∷ []
        → Trail g longer b

  -- A trail with one more edge, back to a vertex that stands on it.
  pub record IsClosedTrail (g : Graph S) (path : List String) : Type 0 where
    pub before : List String
    pub from : String
    pub last : String
    pub split : path ≡ before ++ last ∷ []
    pub trail : Trail g before from
    pub edge : Edge g from last
    pub again : In last before

  pub In-last : {g : Graph S} {path : List String} {k : String} → Trail g path k → In k path
  In-last (start k) = In-snoc_self [] k
  In-last (extend {path} b t e longer) = rw longer (In-snoc_self path b)

  -- From each vertex of a trail there is a walk to its end, or it is the end.
  pub Trail-Walk :
      {g : Graph S} {path : List String} {k : String} (a : String)
      → Trail g path k
      → In a path
      → (k ≡ a) ⊎ Walk g a k
  Trail-Walk a (start k) here = inl (In-singleton here)
  Trail-Walk {g} a (extend {path} b t e longer) here =
      elim (In-snoc_cases path b a (rw longer at here)) [
        | inr same ↦ inl same
        | inl before ↦ elim (Trail-Walk a t before) [
          | inl same ↦ inr (step (rw same at e))
          | inr w ↦ inr (Walk-snoc w e)
        ]
      ]

  -- The walk that a closed trail ends with, from its last vertex back to it.
  pub IsClosedTrail-Walk :
      {g : Graph S} {path : List String} → IsClosedTrail g path → (k : String) × Walk g k k
  IsClosedTrail-Walk c = (
    c.last,
    elim (Trail-Walk c.last c.trail c.again) [
      | inl same ↦ step (let e = c.edge in rw same at e)
      | inr w ↦ Walk-snoc w c.edge
    ],
  )

  -- Every walk from the vertex is finite.
  abbrev pub Grounded : Graph S → String → Type 0
  Grounded g = Acc (λ c k. Edge g k c)

  pub Grounded-not-Walk : {g : Graph S} (k : String) → Grounded g k → ¬ Walk g k k
  Grounded-not-Walk k (Acc.intro _ below) (step e) = Grounded-not-Walk k (below k e) (step e)
  Grounded-not-Walk k (Acc.intro _ below) (more {b} e w) =
      Grounded-not-Walk b (below b e) (Walk-snoc w e)
