-- ===== src/Compose/Dependencies/Build.antt =====
-- `NewGraph` of local/compose/dependencies.go against the dependencies of the services.
use compose_cli.Prelude.{
  String, ◌≡◌, refl, ◌∙◌, sym, Bool, true, false, ◌&&◌, ◌||◌, List, [], ◌∷◌, arith, ◌==◌, eq_iff,
}
use compose_cli.Prelude.GoMap.{lookup, lookup-insert, has, has-insert}
use compose_cli.Compose.Util.{contains}
use compose_cli.Compose.Dependencies.Graph.{
  ServiceStatus, Graph, new_vertex, add_vertex, add_edge, add_vertices, add_edges_of, add_edges,
  new_graph,
}
use compose_cli.Compose.Dependencies.Edges.{
  is_vertex, is_child, is_parent, key_or, IsLinked, is_vertex-add_edge, is_child-add_edge,
  add_edge-IsLinked,
}

-- A graph before its first edge.
record IsBare {S : Type 0} (g : Graph S) : Type 0 where
  keyed : (k : String) → key_or k (lookup k g.vertices) ≡ k
  no_children : (a b : String) → is_child g a b ≡ false
  no_parents : (a b : String) → is_parent g a b ≡ false

add_vertex-IsBare :
    {S : Type 0} (g : Graph S) (k : String) (s : S) (initial : ServiceStatus)
    → IsBare g
    → IsBare (add_vertex g k s initial)
unfolding add_vertex contains
add_vertex-IsBare g k s initial bare =
    let v = new_vertex k s initial in
    record {
      keyed = λ a. ground (arith, lookup-insert k a v g.vertices, bare.keyed a, eq_iff k a);
      no_children = λ a b. ground (arith, lookup-insert k a v g.vertices, bare.no_children a b);
      no_parents = λ a b. ground (arith, lookup-insert k a v g.vertices, bare.no_parents a b);
    }

module _ {S : Type 0} (name : S → String) (get_dependencies : S → List String) where
  -- Some service has the name.
  unfoldable pub is_named : List S → String → Bool
  is_named [] k = false
  is_named (s ∷ services) k = (name s == k) || is_named services k

  -- Some service of name `a` lists `b` among its dependencies.
  unfoldable pub lists : List S → String → String → Bool
  lists [] a b = false
  lists (s ∷ services) a b =
      ((name s == a) && contains (get_dependencies s) b) || lists services a b

  add_vertices-IsBare :
      (initial : ServiceStatus) (g : Graph S) (services : List S)
      → IsBare g
      → IsBare (add_vertices name get_dependencies initial g services)
  unfolding add_vertices
  add_vertices-IsBare initial g [] bare = bare
  add_vertices-IsBare initial g (s ∷ services) bare =
      add_vertices-IsBare initial (add_vertex g (name s) s initial) services
        (add_vertex-IsBare g (name s) s initial bare)

  is_vertex-add_vertices :
      (initial : ServiceStatus) (g : Graph S) (services : List S) (k : String)
      → is_vertex (add_vertices name get_dependencies initial g services) k
        ≡ (is_vertex g k || is_named services k)
  unfolding add_vertices add_vertex is_named
  is_vertex-add_vertices initial g [] k = ground arith
  is_vertex-add_vertices initial g (s ∷ services) k =
      let v = new_vertex (name s) s initial in
      ground (
        arith,
        is_vertex-add_vertices initial (add_vertex g (name s) s initial) services k,
        has-insert (name s) k v g.vertices,
      )

  is_vertex-add_edges_of :
      (g : Graph S) (source : String) (ds : List String) (k : String)
      → is_vertex (add_edges_of name get_dependencies g source ds) k ≡ is_vertex g k
  unfolding add_edges_of
  is_vertex-add_edges_of g source [] k = refl
  is_vertex-add_edges_of g source (d ∷ ds) k =
      is_vertex-add_edges_of (add_edge g source d).0 source ds k ∙ is_vertex-add_edge g source d k

  is_vertex-add_edges :
      (g : Graph S) (services : List S) (k : String)
      → is_vertex (add_edges name get_dependencies g services) k ≡ is_vertex g k
  unfolding add_edges
  is_vertex-add_edges g [] k = refl
  is_vertex-add_edges g (s ∷ services) k =
      is_vertex-add_edges (add_edges_of name get_dependencies g (name s) (get_dependencies s))
        services k
      ∙ is_vertex-add_edges_of g (name s) (get_dependencies s) k

  is_child-add_edges_of :
      (g : Graph S) (source : String) (ds : List String) (a b : String)
      → is_child (add_edges_of name get_dependencies g source ds) a b ≡ (
          is_child g a b
          || (((source == a) && contains ds b) && (is_vertex g source && is_vertex g b)))
  unfolding add_edges_of contains
  is_child-add_edges_of g source [] a b = ground arith
  is_child-add_edges_of g source (d ∷ ds) a b = ground (
    arith,
    is_child-add_edges_of (add_edge g source d).0 source ds a b,
    is_child-add_edge g source d a b,
    is_vertex-add_edge g source d source,
    is_vertex-add_edge g source d b,
    eq_iff d b,
  )

  is_child-add_edges :
      (g : Graph S) (services : List S) (a b : String)
      → is_child (add_edges name get_dependencies g services) a b
        ≡ (is_child g a b || (lists services a b && (is_vertex g a && is_vertex g b)))
  unfolding add_edges lists
  is_child-add_edges g [] a b = ground arith
  is_child-add_edges g (s ∷ services) a b =
      let g' = add_edges_of name get_dependencies g (name s) (get_dependencies s) in
      ground (
        arith,
        is_child-add_edges g' services a b,
        is_child-add_edges_of g (name s) (get_dependencies s) a b,
        is_vertex-add_edges_of g (name s) (get_dependencies s) a,
        is_vertex-add_edges_of g (name s) (get_dependencies s) b,
        eq_iff (name s) a,
      )

  add_edges_of-IsLinked :
      (g : Graph S) (source : String) (ds : List String)
      → IsLinked g
      → IsLinked (add_edges_of name get_dependencies g source ds)
  unfolding add_edges_of
  add_edges_of-IsLinked g source [] l = l
  add_edges_of-IsLinked g source (d ∷ ds) l =
      add_edges_of-IsLinked (add_edge g source d).0 source ds (add_edge-IsLinked g source d l)

  add_edges-IsLinked :
      (g : Graph S) (services : List S)
      → IsLinked g
      → IsLinked (add_edges name get_dependencies g services)
  unfolding add_edges
  add_edges-IsLinked g [] l = l
  add_edges-IsLinked g (s ∷ services) l =
      add_edges-IsLinked (add_edges_of name get_dependencies g (name s) (get_dependencies s))
        services (add_edges_of-IsLinked g (name s) (get_dependencies s) l)

  is_named-lists :
      (services : List S) (a b : String) → lists services a b ≡ true → is_named services a ≡ true
  unfolding lists is_named
  is_named-lists [] a b e = cc
  is_named-lists (s ∷ services) a b e = ground (arith, is_named-lists services a b)

  IsBare-empty : IsBare {S = S} (record { vertices = [] })
  unfolding lookup contains
  IsBare-empty = record { keyed = λ k. refl; no_children = λ a b. refl; no_parents = λ a b. refl }

  module _ (services : List S) (initial : ServiceStatus) where
    bare : Graph S
    bare = add_vertices name get_dependencies initial (record { vertices = [] }) services

    bare-IsBare : IsBare bare
    unfolding bare
    bare-IsBare = add_vertices-IsBare initial (record { vertices = [] }) services IsBare-empty

    edgeless : (a b : String) → is_child bare a b ≡ false
    edgeless a b = bare-IsBare.no_children a b

    is_vertex-bare : (k : String) → is_vertex bare k ≡ is_named services k
    unfolding bare has lookup
    is_vertex-bare k = is_vertex-add_vertices initial (record { vertices = [] }) services k

    new_graph_lem :
        new_graph name get_dependencies services initial
        ≡ add_edges name get_dependencies bare services
    unfolding new_graph bare
    new_graph_lem = refl

    -- The vertices of the graph are the names of the services.
    pub is_vertex-new_graph :
        (k : String)
        → is_vertex (new_graph name get_dependencies services initial) k ≡ is_named services k
    is_vertex-new_graph k =
        rw new_graph_lem (is_vertex-add_edges bare services k ∙ is_vertex-bare k)

    -- There is an edge exactly from a service to each of its dependencies that is a service.
    pub is_child-new_graph :
        (a b : String)
        → is_child (new_graph name get_dependencies services initial) a b
          ≡ (lists services a b && is_named services b)
    is_child-new_graph a b = rw new_graph_lem (
        ground (
          arith,
          is_child-add_edges bare services a b,
          edgeless a b,
          is_vertex-bare a,
          is_vertex-bare b,
          is_named-lists services a b,
        ))

    -- Children and parents are converse, every edge ends at a vertex, every key is its vertex's.
    pub new_graph-IsLinked : IsLinked (new_graph name get_dependencies services initial)
    new_graph-IsLinked =
        let linked : IsLinked bare = record {
          keyed = bare-IsBare.keyed;
          mirrored = λ a b. bare-IsBare.no_parents b a ∙ sym (bare-IsBare.no_children a b);
          closed = λ a b edge. cc (edgeless a b);
        } in
        rw new_graph_lem (add_edges-IsLinked bare services linked)
