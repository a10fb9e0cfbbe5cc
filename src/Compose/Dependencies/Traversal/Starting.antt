-- ===== src/Compose/Dependencies/Traversal/Starting.antt =====
-- The test by which `run` (local/compose/dependencies.go) starts a node, and what the walk leaves
-- unchanged in the graph.
use mathlib.Core.Option
use compose_cli.Prelude.{
  String, ◌≡◌, refl, sym, ◌∙◌, Bool, true, false, Option, none, some, Option-cases, Bool-cases, inl,
  inr, List, [], ◌∷◌, arith, ◌==◌, eq_iff, if◌then◌else◌,
}
use compose_cli.Prelude.GoMap.{lookup, lookup-modify, has}
use compose_cli.Compose.Util.{contains, In, In-head, In-tail}
use compose_cli.Compose.Dependencies.Graph.{
  ServiceStatus, service_stopped, Vertex, Graph, is_empty, in_status, update_status,
}
use compose_cli.Compose.Dependencies.Edges.{
  is_vertex, is_child, is_parent, children_or_nil, parents_or_nil, key_or, IsLinked,
}
use compose_cli.Compose.Dependencies.Fields.{field_or}
use compose_cli.Compose.Dependencies.Traversal.{TraversalConfig, can_start, complete}
use compose_cli.Compose.Dependencies.Traversal.Direction.{
  in_state, edges_or_nil, waits_for, IsDirection,
}

module _ {S : Type 0} where
  abbrev pub with_status : ServiceStatus → Vertex S → Vertex S
  with_status status v = record v { status = status }

  -- A vertex without its status.
  abbrev pub erased : Option (Vertex S) → Option (Vertex S)
  erased none = none
  erased (some v) = some (record v { status = service_stopped })

  -- The graphs differ in the statuses alone.
  abbrev pub SameShape : Graph S → Graph S → Type 0
  SameShape g h = (k : String) → erased (lookup k g.vertices) ≡ erased (lookup k h.vertices)

  children-erased : (o : Option (Vertex S)) → children_or_nil (erased o) ≡ children_or_nil o
  children-erased none = refl
  children-erased (some v) = refl

  parents-erased : (o : Option (Vertex S)) → parents_or_nil (erased o) ≡ parents_or_nil o
  parents-erased none = refl
  parents-erased (some v) = refl

  key-erased : (k : String) (o : Option (Vertex S)) → key_or k (erased o) ≡ key_or k o
  key-erased k none = refl
  key-erased k (some v) = refl

  abbrev is_some : Option (Vertex S) → Bool
  is_some none = false
  is_some (some v) = true

  is_some-erased : (o : Option (Vertex S)) → is_some (erased o) ≡ is_some o
  is_some-erased none = refl
  is_some-erased (some v) = refl

  has_lem : (k : String) (g : Graph S) → is_vertex g k ≡ is_some (lookup k g.vertices)
  unfolding has
  has_lem k g = ground arith

  module _ (g h : Graph S) (same : SameShape g h) where
    pub is_vertex-SameShape : (k : String) → is_vertex g k ≡ is_vertex h k
    is_vertex-SameShape k = cc (
      has_lem k g,
      has_lem k h,
      same k,
      is_some-erased (lookup k g.vertices),
      is_some-erased (lookup k h.vertices),
    )

    pub is_child-SameShape : (a b : String) → is_child g a b ≡ is_child h a b
    is_child-SameShape a b =
        cc (same a, children-erased (lookup a g.vertices), children-erased (lookup a h.vertices))

    pub is_parent-SameShape : (a b : String) → is_parent g a b ≡ is_parent h a b
    is_parent-SameShape a b =
        cc (same a, parents-erased (lookup a g.vertices), parents-erased (lookup a h.vertices))

    pub SameShape-IsLinked : IsLinked h → IsLinked g
    SameShape-IsLinked l = record {
      keyed = λ k. cc (
        same k,
        key-erased k (lookup k g.vertices),
        key-erased k (lookup k h.vertices),
        l.keyed k,
      );
      mirrored = λ a b. is_parent-SameShape b a ∙ l.mirrored a b ∙ sym (is_child-SameShape a b);
      closed =
          λ a b edge. is_vertex-SameShape b ∙ l.closed a b (sym (is_child-SameShape a b) ∙ edge);
    }

module _ {S : Type 0} (name : S → String) where
  abbrev pub name_or : String → Option (Vertex S) → String
  name_or k o = field_or (λ v. name v.service) k o

  -- Each vertex is held under the name of its service.
  abbrev pub IsNamed : Graph S → Type 0
  IsNamed g = (k : String) → name_or k (lookup k g.vertices) ≡ k

  name-erased : (k : String) (o : Option (Vertex S)) → name_or k (erased o) ≡ name_or k o
  name-erased k none = refl
  name-erased k (some v) = refl

  pub IsNamed-SameShape : (g h : Graph S) → SameShape g h → IsNamed h → IsNamed g
  IsNamed-SameShape g h same named k =
      cc (same k, name-erased k (lookup k g.vertices), name-erased k (lookup k h.vertices), named k)

  module _ (config : TraversalConfig S) where
    pub lookup-complete :
        (g : Graph S) (v : Vertex S) (j : String)
        → lookup j (complete name config g v).vertices ≡ (
            if name v.service == j
            then Option.map (with_status config.target_service_status) (lookup j g.vertices)
            else lookup j g.vertices)
    unfolding complete update_status
    lookup-complete g v j =
        lookup-modify (name v.service) j (with_status config.target_service_status) g.vertices

    pub SameShape-complete :
        (g h : Graph S) (v : Vertex S) → SameShape g h → SameShape (complete name config g v) h
    SameShape-complete g h v same k = ground (arith, lookup-complete g v k, same k)

module _ {S : Type 0} where
  in_status-empty :
      (g : Graph S) (st : ServiceStatus) (ks : List String) (c : String)
      → is_empty (in_status g st ks) ≡ true
      → In c ks
      → in_state g st c ≡ false
  unfolding in_status contains
  in_status-empty g st [] c none_left here = cc
  in_status-empty g st (k ∷ ks) c none_left here =
      ground (arith, in_status-empty g st ks c, eq_iff k c)

  in_status-head :
      (g : Graph S) (st : ServiceStatus) (ks : List String)
      → is_empty (in_status g st ks) ≡ false
      → (c : String) × In c ks × (in_state g st c ≡ true)
  unfolding in_status
  in_status-head g st [] some_left = cc
  in_status-head g st (k ∷ ks) some_left = elim (Bool-cases (in_state g st k)) [
    | inl found ↦ (k, In-head k ks, found)
    | inr other ↦
        let (c, here, found) = in_status-head g st ks (skip_head other) in
        (c, In-tail k c ks here, found)
  ]
    where
      skip_head : in_state g st k ≡ false → is_empty (in_status g st ks) ≡ false
      skip_head other = ground arith

module _ {S : Type 0} (name : S → String) (config : TraversalConfig S)
    {edges : Vertex S → List String} (direction : IsDirection config edges) (g : Graph S)
    (named : IsNamed name g) (n : String) where
  -- `can_start` is the test that no node that `n` waits for is in the status to skip.
  pub can_start_lem :
      (v : Vertex S)
      → lookup n g.vertices ≡ some v
      → can_start name config g n
        ≡ some (is_empty (in_status g config.adjacent_service_status_to_skip (edges v)))
  unfolding can_start
  can_start_lem v found =
      ground
        (arith, direction.filter_lem g n v config.adjacent_service_status_to_skip found, named n)

  pub can_start-true :
      can_start name config g n ≡ some true
      → (c : String) → waits_for edges g n c ≡ true
      → in_state g config.adjacent_service_status_to_skip c ≡ false
  unfolding can_start
  can_start-true starts c waits = elim (Option-cases (lookup n g.vertices)) [
    | inl missing ↦ absurd (cc (rw (missing, can_start) at starts))
    | inr (v, found) ↦
        in_status-empty g config.adjacent_service_status_to_skip (edges v) c
          (cc (can_start_lem v found)) (rw found at waits)
  ]

  pub can_start-false :
      can_start name config g n ≡ some false
      → (c : String) × (waits_for edges g n c ≡ true)
        × (in_state g config.adjacent_service_status_to_skip c ≡ true)
  unfolding can_start
  can_start-false blocked = elim (Option-cases (lookup n g.vertices)) [
    | inl missing ↦ absurd (cc (rw (missing, can_start) at blocked))
    | inr (v, found) ↦
        let (c, waits, state) =
          in_status-head g config.adjacent_service_status_to_skip (edges v)
            (cc (can_start_lem v found)) in
        (c, rw found waits, state)
  ]

module _ {S : Type 0} where
  pub edges-erased :
      {config : TraversalConfig S} {edges : Vertex S → List String} (d : IsDirection config edges)
      (o : Option (Vertex S))
      → edges_or_nil edges (erased o) ≡ edges_or_nil edges o
  edges-erased d none = refl
  edges-erased d (some v) = d.static v service_stopped

  pub waits_for-SameShape :
      {config : TraversalConfig S} {edges : Vertex S → List String} (d : IsDirection config edges)
      (g h : Graph S)
      → SameShape g h
      → (k c : String) → waits_for edges g k c ≡ waits_for edges h k c
  waits_for-SameShape d g h same k c =
      cc (same k, edges-erased d (lookup k g.vertices), edges-erased d (lookup k h.vertices))
