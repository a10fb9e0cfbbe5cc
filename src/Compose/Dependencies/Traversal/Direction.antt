-- ===== src/Compose/Dependencies/Traversal/Direction.antt =====
-- What the two traversal configurations of local/compose/dependencies.go have in common: each
-- waits for the nodes along one of the two maps of a vertex, and goes on along the other.
use compose_cli.Prelude.{
  String, ◌≡◌, ◌≢◌, refl, Bool, true, false, Option, none, some, List, [], ◌∷◌, arith, eq_iff,
}
use compose_cli.Prelude.GoMap.{GoMap, lookup, has}
use compose_cli.Compose.Util.{contains, In}
use compose_cli.Compose.Dependencies.Graph.{
  ServiceStatus, same_status, Vertex, Graph, leaves, roots, leaves_of, roots_of, get_parents,
  get_children, in_status, filter_children, filter_parents,
}
use compose_cli.Compose.Dependencies.Edges.{is_vertex, is_child, is_parent, IsLinked}
use compose_cli.Compose.Dependencies.Traversal.{TraversalConfig, up_direction, down_direction}

module _ {S : Type 0} where
  abbrev pub status_is : ServiceStatus → Option (Vertex S) → Bool
  status_is st none = false
  status_is st (some v) = same_status v.status st

  abbrev pub in_state : Graph S → ServiceStatus → String → Bool
  in_state g st k = status_is st (lookup k g.vertices)

  -- The nodes that `k` waits for, by the map `edges` of its vertex.
  abbrev pub edges_or_nil : (Vertex S → List String) → Option (Vertex S) → List String
  edges_or_nil edges none = []
  edges_or_nil edges (some v) = edges v

  abbrev pub waits_for : (Vertex S → List String) → Graph S → String → String → Bool
  waits_for edges g k c = contains (edges_or_nil edges (lookup k g.vertices)) c

  pub record IsDirection (config : TraversalConfig S) (edges : Vertex S → List String)
      : Type 0 where
    pub filter_lem :
        (g : Graph S) (k : String) (v : Vertex S) (st : ServiceStatus)
        → lookup k g.vertices ≡ some v
        → config.filter_adjacent_by_status g k st ≡ some (in_status g st (edges v))
    -- The walk goes on from a node to those that wait for it.
    pub adjacent_lem :
        (g : Graph S) (n k : String) (v : Vertex S)
        → IsLinked g
        → lookup n g.vertices ≡ some v
        → contains (config.adjacent_nodes v) k ≡ waits_for edges g k n
    -- The walk starts at the nodes that wait for none.
    pub extremity_lem :
        (g : Graph S) (k : String) (v : Vertex S)
        → lookup k g.vertices ≡ some v
        → edges v ≡ []
        → In k (config.extremity_nodes g)
    pub closed_lem :
        (g : Graph S) (k c : String)
        → IsLinked g
        → waits_for edges g k c ≡ true
        → is_vertex g c ≡ true
    pub status_lem : config.target_service_status ≢ config.adjacent_service_status_to_skip
    -- Only the status of a vertex changes during the walk.
    pub static : (v : Vertex S) (st : ServiceStatus) → edges (record v { status = st }) ≡ edges v

  up_filter :
      (g : Graph S) (k : String) (v : Vertex S) (st : ServiceStatus)
      → lookup k g.vertices ≡ some v
      → filter_children g k st ≡ some (in_status g st (get_children v))
  unfolding filter_children get_children
  up_filter g k v st found = rw (found, filter_children) refl

  down_filter :
      (g : Graph S) (k : String) (v : Vertex S) (st : ServiceStatus)
      → lookup k g.vertices ≡ some v
      → filter_parents g k st ≡ some (in_status g st (get_parents v))
  unfolding filter_parents get_parents
  down_filter g k v st found = rw (found, filter_parents) refl

  up_adjacent :
      (g : Graph S) (n k : String) (v : Vertex S)
      → IsLinked g
      → lookup n g.vertices ≡ some v
      → contains (get_parents v) k ≡ waits_for get_children g k n
  unfolding get_parents get_children
  up_adjacent g n k v linked found = ground (arith, linked.mirrored k n)

  down_adjacent :
      (g : Graph S) (n k : String) (v : Vertex S)
      → IsLinked g
      → lookup n g.vertices ≡ some v
      → contains (get_children v) k ≡ waits_for get_parents g k n
  unfolding get_parents get_children
  down_adjacent g n k v linked found = ground (arith, linked.mirrored n k)

  leaves_of-In :
      (m : GoMap (Vertex S)) (k : String) (v : Vertex S)
      → lookup k m ≡ some v
      → v.children ≡ []
      → In k (leaves_of m)
  unfolding lookup leaves_of contains
  leaves_of-In [] k v found none_left = cc
  leaves_of-In ((j, w) ∷ m) k v found none_left = ground (arith, leaves_of-In m k v, eq_iff j k)

  roots_of-In :
      (m : GoMap (Vertex S)) (k : String) (v : Vertex S)
      → lookup k m ≡ some v
      → v.parents ≡ []
      → In k (roots_of m)
  unfolding lookup roots_of contains
  roots_of-In [] k v found none_left = cc
  roots_of-In ((j, w) ∷ m) k v found none_left = ground (arith, roots_of-In m k v, eq_iff j k)

  up_closed :
      (g : Graph S) (k c : String)
      → IsLinked g
      → waits_for get_children g k c ≡ true
      → is_vertex g c ≡ true
  unfolding get_children
  up_closed g k c linked waits = ground (arith, linked.closed k c)

  down_closed :
      (g : Graph S) (k c : String)
      → IsLinked g
      → waits_for get_parents g k c ≡ true
      → is_vertex g c ≡ true
  unfolding get_parents has contains
  down_closed g k c linked waits = ground (arith, linked.mirrored c k)

  pub up-IsDirection : IsDirection up_direction get_children
  unfolding get_children leaves
  up-IsDirection = record {
    filter_lem = up_filter;
    adjacent_lem = up_adjacent;
    extremity_lem = λ g k v found none_left. leaves_of-In g.vertices k v found none_left;
    closed_lem = up_closed;
    status_lem = λ e. cc;
    static = λ v st. refl;
  }

  pub down-IsDirection : IsDirection down_direction get_parents
  unfolding get_parents roots
  down-IsDirection = record {
    filter_lem = down_filter;
    adjacent_lem = down_adjacent;
    extremity_lem = λ g k v found none_left. roots_of-In g.vertices k v found none_left;
    closed_lem = down_closed;
    status_lem = λ e. cc;
    static = λ v st. refl;
  }

pub children_waits :
    {S : Type 0} (g : Graph S) (n c : String) → waits_for get_children g n c ≡ is_child g n c
unfolding get_children
children_waits g n c = ground arith

pub parents_waits :
    {S : Type 0} (g : Graph S) (n c : String) → waits_for get_parents g n c ≡ is_parent g n c
unfolding get_parents
parents_waits g n c = ground arith
