-- ===== src/Compose/Dependencies/Edges.antt =====
-- What `NewGraph` of local/compose/dependencies.go builds: its vertices and its edges.
use compose_cli.Prelude.{
  String, ◌≡◌, Bool, true, ◌&&◌, ◌||◌, Option, none, some, List, [], arith, ◌==◌, eq_iff,
}
use compose_cli.Prelude.GoMap.{lookup, modify, has, lookup-modify, has-modify}
use compose_cli.Compose.Util.{contains, contains-snoc}
use compose_cli.Compose.Dependencies.Graph.{
  Vertex, Graph, put_key, add_child, add_parent, connect, add_edge,
}

pub contains-put_key :
    (k a : String) (ks : List String) → contains (put_key k ks) a ≡ contains ks a || (k == a)
unfolding put_key
contains-put_key k a ks = ground (arith, contains-snoc ks k a, eq_iff k a)

module _ {S : Type 0} where
  abbrev pub is_vertex : Graph S → String → Bool
  is_vertex g k = has k g.vertices

  abbrev pub children_or_nil : Option (Vertex S) → List String
  children_or_nil none = []
  children_or_nil (some v) = v.children

  abbrev pub parents_or_nil : Option (Vertex S) → List String
  parents_or_nil none = []
  parents_or_nil (some v) = v.parents

  abbrev pub key_or : String → Option (Vertex S) → String
  key_or k none = k
  key_or k (some v) = v.key

  abbrev pub is_child : Graph S → String → String → Bool
  is_child g a b = contains (children_or_nil (lookup a g.vertices)) b

  abbrev pub is_parent : Graph S → String → String → Bool
  is_parent g a b = contains (parents_or_nil (lookup a g.vertices)) b

  pub is_vertex-add_edge :
      (g : Graph S) (s d k : String) → is_vertex (add_edge g s d).0 k ≡ is_vertex g k
  unfolding add_edge connect
  is_vertex-add_edge g s d k = ground (
    arith,
    has-modify s k (add_child d) g.vertices,
    has-modify d k (add_parent s) (modify s (add_child d) g.vertices),
  )

  is_child-connect :
      (g : Graph S) (s d a b : String)
      → is_vertex g s ≡ true
      → is_child (connect g s d) a b ≡ (is_child g a b || ((s == a) && (d == b)))
  unfolding connect has
  is_child-connect g s d a b here = ground (
    arith,
    lookup-modify d a (add_parent s) (modify s (add_child d) g.vertices),
    lookup-modify s a (add_child d) g.vertices,
    contains-put_key d b (children_or_nil (lookup a g.vertices)),
    eq_iff s a,
  )

  is_parent-connect :
      (g : Graph S) (s d a b : String)
      → is_vertex g d ≡ true
      → is_parent (connect g s d) a b ≡ (is_parent g a b || ((d == a) && (s == b)))
  unfolding connect has
  is_parent-connect g s d a b here = ground (
    arith,
    lookup-modify d a (add_parent s) (modify s (add_child d) g.vertices),
    lookup-modify s a (add_child d) g.vertices,
    contains-put_key s b (parents_or_nil (lookup a g.vertices)),
    eq_iff d a,
  )

  abbrev joins : Graph S → String → String → String → String → Bool
  joins g s d a b = ((s == a) && (d == b)) && (is_vertex g s && is_vertex g d)

  -- An edge is added only between vertices of the graph.
  pub is_child-add_edge :
      (g : Graph S) (s d a b : String)
      → is_child (add_edge g s d).0 a b ≡ (is_child g a b || joins g s d a b)
  unfolding add_edge has
  is_child-add_edge g s d a b = ground (arith, is_child-connect g s d a b, eq_iff s a, eq_iff d b)

  -- The two maps stay converse to each other, provided that they are so before.
  pub is_parent-add_edge :
      (g : Graph S) (s d a b : String)
      → ((x y : String) → is_parent g y x ≡ is_child g x y)
      → is_parent (add_edge g s d).0 b a ≡ (is_parent g b a || joins g s d a b)
  unfolding add_edge has
  is_parent-add_edge g s d a b mirrored =
      ground (arith, is_parent-connect g s d b a, mirrored a b, eq_iff s a, eq_iff d b)

  -- `lookup` finds a vertex by its own key, children and parents are converse, and the children of
  -- a vertex are vertices.
  pub record IsLinked (g : Graph S) : Type 0 where
    pub keyed : (k : String) → key_or k (lookup k g.vertices) ≡ k
    pub mirrored : (a b : String) → is_parent g b a ≡ is_child g a b
    pub closed : (a b : String) → is_child g a b ≡ true → is_vertex g b ≡ true

  key_or-add_edge :
      (g : Graph S) (s d k : String)
      → key_or k (lookup k g.vertices) ≡ k
      → key_or k (lookup k (add_edge g s d).0.vertices) ≡ k
  unfolding add_edge connect
  key_or-add_edge g s d k kept = ground (
    arith,
    lookup-modify d k (add_parent s) (modify s (add_child d) g.vertices),
    lookup-modify s k (add_child d) g.vertices,
  )

  closed-add_edge :
      (g : Graph S) (s d a b : String)
      → (is_child g a b ≡ true → is_vertex g b ≡ true)
      → is_child (add_edge g s d).0 a b ≡ true
      → is_vertex (add_edge g s d).0 b ≡ true
  closed-add_edge g s d a b before edge =
      ground (arith, is_child-add_edge g s d a b, is_vertex-add_edge g s d b, eq_iff d b)

  pub add_edge-IsLinked : (g : Graph S) (s d : String) → IsLinked g → IsLinked (add_edge g s d).0
  add_edge-IsLinked g s d l = record {
    keyed = λ k. key_or-add_edge g s d k (l.keyed k);
    mirrored = λ a b. rw (
      is_child-add_edge g s d a b,
      is_parent-add_edge g s d a b (λ x y. l.mirrored x y),
      l.mirrored a b,
    );
    closed = λ a b edge. closed-add_edge g s d a b (l.closed a b) edge;
  }
