-- ===== src/Compose/Dependencies/Graph.antt =====
-- The graph of local/compose/dependencies.go and its operations.
--
-- A `*Vertex` is the key under which `Graph.Vertices` holds it: every vertex is added before the
-- first edge, so the pointers in `Children` and `Parents` are those of `Vertices`. Those two maps
-- are therefore lists of keys. The service type and its two accessors belong to the compose-go
-- library, and are parameters.
use compose_cli.Prelude.{
  String, Bool, true, false, Option, none, some, List, [], ◌∷◌, ◌++◌, if◌then◌else◌,
}
use compose_cli.Prelude.GoMap.{GoMap, lookup, insert, modify}
use compose_cli.Compose.Util.{contains}

pub data ServiceStatus : Type 0 where
  service_stopped service_started : ServiceStatus

abbrev pub same_status : ServiceStatus → ServiceStatus → Bool
same_status service_stopped service_stopped = true
same_status service_started service_started = true
same_status _ _ = false

pub record Vertex (S : Type 0) : Type 0 where
  pub key : String
  pub service : S
  pub status : ServiceStatus
  pub children : List String
  pub parents : List String

pub record Graph (S : Type 0) : Type 0 where
  pub vertices : GoMap (Vertex S)

pub data GraphError : Type 0 where
  could_not_find : String → GraphError

-- m[key] = pointer, for a map that is kept as the list of its keys
unfoldable pub put_key : String → List String → List String
put_key key slice = if contains slice key then slice else slice ++ key ∷ []

abbrev pub is_empty : List String → Bool
is_empty [] = true
is_empty (k ∷ ks) = false

module _ {S : Type 0} where
  unfoldable pub new_vertex : String → S → ServiceStatus → Vertex S
  new_vertex key service initial = record {
    key = key;
    service = service;
    status = initial;
    children = [];
    parents = [];
  }

  unfoldable pub add_vertex : Graph S → String → S → ServiceStatus → Graph S
  unfolding new_vertex
  add_vertex g key service initial = record {
    vertices = insert key (new_vertex key service initial) g.vertices;
  }

  abbrev pub add_child : String → Vertex S → Vertex S
  add_child key v = record v { children = put_key key v.children }

  abbrev pub add_parent : String → Vertex S → Vertex S
  add_parent key v = record v { parents = put_key key v.parents }

  -- The two assignments at the end of `AddEdge`.
  unfoldable pub connect : Graph S → String → String → Graph S
  connect g source destination = record {
    vertices =
        modify destination (add_parent source) (modify source (add_child destination) g.vertices);
  }

  unfoldable pub add_edge : Graph S → String → String → Graph S × Option GraphError
  add_edge g source destination = elim (lookup source g.vertices) [
    | none ↦ (g, some (could_not_find source))
    | some source_vertex ↦ elim (lookup destination g.vertices) [
      | none ↦ (g, some (could_not_find destination))
      | some destination_vertex ↦
          if contains source_vertex.children destination
          then (g, none)
          else (connect g source destination, none)
    ]
  ]

  unfoldable pub update_status : Graph S → String → ServiceStatus → Graph S
  update_status g key status = record {
    vertices = modify key (λ v. record v { status = status }) g.vertices;
  }

  unfoldable pub get_parents : Vertex S → List String
  get_parents v = v.parents

  unfoldable pub get_children : Vertex S → List String
  get_children v = v.children

  unfoldable pub leaves_of : GoMap (Vertex S) → List String
  leaves_of [] = []
  leaves_of ((k, v) ∷ m) = let rest = leaves_of m in if is_empty v.children then k ∷ rest else rest

  unfoldable pub leaves : Graph S → List String
  unfolding leaves_of
  leaves g = leaves_of g.vertices

  unfoldable pub roots_of : GoMap (Vertex S) → List String
  roots_of [] = []
  roots_of ((k, v) ∷ m) = let rest = roots_of m in if is_empty v.parents then k ∷ rest else rest

  unfoldable pub roots : Graph S → List String
  unfolding roots_of
  roots g = roots_of g.vertices

  -- The vertices of a slice that are in a status.
  unfoldable pub in_status : Graph S → ServiceStatus → List String → List String
  in_status g status [] = []
  in_status g status (k ∷ ks) =
      let rest = in_status g status ks in
      elim (lookup k g.vertices) [
        | none ↦ rest
        | some v ↦ if same_status v.status status then k ∷ rest else rest
      ]

  -- `none` is a nil dereference: no vertex has the key.
  unfoldable pub filter_children : Graph S → String → ServiceStatus → Option (List String)
  filter_children g key status = elim (lookup key g.vertices) [
    | none ↦ none
    | some v ↦ some (in_status g status v.children)
  ]

  unfoldable pub filter_parents : Graph S → String → ServiceStatus → Option (List String)
  filter_parents g key status = elim (lookup key g.vertices) [
    | none ↦ none
    | some v ↦ some (in_status g status v.parents)
  ]

-- `NewGraph`, with the two loops over the services. An error of `AddEdge` is dropped.
module _ {S : Type 0} (name : S → String) (get_dependencies : S → List String) where
  unfoldable pub add_vertices : ServiceStatus → Graph S → List S → Graph S
  add_vertices initial g [] = g
  add_vertices initial g (s ∷ services) =
      add_vertices initial (add_vertex g (name s) s initial) services

  unfoldable pub add_edges_of : Graph S → String → List String → Graph S
  add_edges_of g source [] = g
  add_edges_of g source (d ∷ ds) = add_edges_of ((add_edge g source d).0) source ds

  unfoldable pub add_edges : Graph S → List S → Graph S
  add_edges g [] = g
  add_edges g (s ∷ services) = add_edges (add_edges_of g (name s) (get_dependencies s)) services

  unfoldable pub new_graph : List S → ServiceStatus → Graph S
  unfolding add_vertices add_edges_of add_edges
  new_graph services initial =
      add_edges (add_vertices initial (record { vertices = [] }) services) services
