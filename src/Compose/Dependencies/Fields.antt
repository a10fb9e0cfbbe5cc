-- ===== src/Compose/Dependencies/Fields.antt =====
-- What `AddVertex` of local/compose/dependencies.go writes into a vertex, and `AddEdge` leaves
-- alone: the service and the status.
use compose_cli.Prelude.{
  inl, inr, Option-cases, String, ◌≡◌, refl, ◌∙◌, Option, none, some, List, [], ◌∷◌, arith, eq_iff,
}
use compose_cli.Prelude.GoMap.{lookup, modify, lookup-modify, lookup-insert}
use compose_cli.Compose.Dependencies.Graph.{
  ServiceStatus, Vertex, Graph, new_vertex, add_vertex, add_child, add_parent, connect, add_edge,
  add_vertices, add_edges_of, add_edges, new_graph,
}

abbrev pub field_or : {S T : Type 0} → (Vertex S → T) → T → Option (Vertex S) → T
field_or f d none = d
field_or f d (some v) = f v

module _ {S T : Type 0} (f : Vertex S → T)
    (child : (k : String) (v : Vertex S) → f (add_child k v) ≡ f v)
    (parent : (k : String) (v : Vertex S) → f (add_parent k v) ≡ f v) (d : T) where
  field-add_edge :
      (g : Graph S) (s t k : String)
      → field_or f d (lookup k (add_edge g s t).0.vertices) ≡ field_or f d (lookup k g.vertices)
  unfolding add_edge connect
  field-add_edge g s t k = elim (Option-cases (lookup k g.vertices)) [
    | inl missing ↦ ground (
      arith,
      lookup-modify t k (add_parent s) (modify s (add_child t) g.vertices),
      lookup-modify s k (add_child t) g.vertices,
    )
    | inr (v, found) ↦ ground (
      arith,
      lookup-modify t k (add_parent s) (modify s (add_child t) g.vertices),
      lookup-modify s k (add_child t) g.vertices,
      child t v,
      parent s v,
      parent s (add_child t v),
    )
  ]

  module _ (name : S → String) (get_dependencies : S → List String) where
    field-add_edges_of :
        (g : Graph S) (s : String) (ts : List String) (k : String)
        → field_or f d (lookup k (add_edges_of name get_dependencies g s ts).vertices)
          ≡ field_or f d (lookup k g.vertices)
    unfolding add_edges_of
    field-add_edges_of g s [] k = refl
    field-add_edges_of g s (t ∷ ts) k =
        field-add_edges_of (add_edge g s t).0 s ts k ∙ field-add_edge g s t k

    field-add_edges :
        (g : Graph S) (services : List S) (k : String)
        → field_or f d (lookup k (add_edges name get_dependencies g services).vertices)
          ≡ field_or f d (lookup k g.vertices)
    unfolding add_edges
    field-add_edges g [] k = refl
    field-add_edges g (s ∷ services) k =
        field-add_edges (add_edges_of name get_dependencies g (name s) (get_dependencies s))
          services k
        ∙ field-add_edges_of g (name s) (get_dependencies s) k

module _ {S : Type 0} (name : S → String) (get_dependencies : S → List String)
    (initial : ServiceStatus) where
  abbrev name_of : Vertex S → String
  name_of v = name v.service

  abbrev status_of : Vertex S → ServiceStatus
  status_of v = v.status

  add_vertex-named :
      (g : Graph S) (s : S)
      → ((k : String) → field_or name_of k (lookup k g.vertices) ≡ k)
      → (k : String) → field_or name_of k (lookup k (add_vertex g (name s) s initial).vertices) ≡ k
  unfolding add_vertex new_vertex
  add_vertex-named g s named k = ground (
    arith,
    lookup-insert (name s) k (new_vertex (name s) s initial) g.vertices,
    named k,
    eq_iff (name s) k,
  )

  add_vertex-status :
      (g : Graph S) (s : S)
      → ((k : String) → field_or status_of initial (lookup k g.vertices) ≡ initial)
      → (k : String)
      → field_or status_of initial (lookup k (add_vertex g (name s) s initial).vertices) ≡ initial
  unfolding add_vertex new_vertex
  add_vertex-status g s same k =
      ground (arith, lookup-insert (name s) k (new_vertex (name s) s initial) g.vertices, same k)

  add_vertices-named :
      (g : Graph S) (services : List S)
      → ((k : String) → field_or name_of k (lookup k g.vertices) ≡ k)
      → (k : String)
      → field_or name_of k
          (lookup k (add_vertices name get_dependencies initial g services).vertices)
        ≡ k
  unfolding add_vertices
  add_vertices-named g [] named k = named k
  add_vertices-named g (s ∷ services) named k =
      add_vertices-named (add_vertex g (name s) s initial) services (add_vertex-named g s named) k

  add_vertices-status :
      (g : Graph S) (services : List S)
      → ((k : String) → field_or status_of initial (lookup k g.vertices) ≡ initial)
      → (k : String)
      → field_or status_of initial
          (lookup k (add_vertices name get_dependencies initial g services).vertices)
        ≡ initial
  unfolding add_vertices
  add_vertices-status g [] same k = same k
  add_vertices-status g (s ∷ services) same k =
      add_vertices-status (add_vertex g (name s) s initial) services (add_vertex-status g s same) k

  -- Each vertex is held under the name of its service.
  pub new_graph-named :
      (services : List S) (k : String)
      → field_or name_of k (lookup k (new_graph name get_dependencies services initial).vertices)
        ≡ k
  unfolding new_graph lookup
  new_graph-named services k =
      field-add_edges name_of (λ j v. refl) (λ j v. refl) k name get_dependencies _ services k
      ∙ add_vertices-named (record { vertices = [] }) services (λ j. refl) k

  -- Each vertex has the initial status.
  pub new_graph-status :
      (services : List S) (k : String)
      → field_or status_of initial
          (lookup k (new_graph name get_dependencies services initial).vertices)
        ≡ initial
  unfolding new_graph lookup
  new_graph-status services k =
      field-add_edges status_of (λ j v. refl) (λ j v. refl) initial name get_dependencies _ services
        k
      ∙ add_vertices-status (record { vertices = [] }) services (λ j. refl) k
