-- ===== src/Compose/Dependencies/Cycles/Tests.antt =====
-- Small graphs, and what `HasCycles` answers for them.
use compose_cli.Prelude.{String, List, [], ◌∷◌, ◌≡◌, refl}
use compose_cli.Prelude.GoMap.{insert, lookup, modify}
use compose_cli.Compose.Util.{contains, remove}
use compose_cli.Compose.Dependencies.Graph.{
  Graph, service_stopped, new_graph, put_key, connect, add_edge, add_vertex,
}
use compose_cli.Prelude.{◌⊎◌, ◌&&◌}
use compose_cli.Compose.Dependencies.Edges.{is_child, IsLinked}
use compose_cli.Compose.Dependencies.Build.{is_named, lists, is_child-new_graph, new_graph-IsLinked}
use compose_cli.Compose.Dependencies.Walks.{IsAcyclic, IsClosedTrail}
use compose_cli.Compose.Dependencies.Cycles.Decides.{has_cycles_decides}
use compose_cli.Compose.Dependencies.Cycles.{
  MapOrder, has_cycles, done, cycle_found, visit, visit_children,
}

-- A service is a name and its dependencies.
abbrev pub Named : Type 0
Named = String × List String

abbrev pub name_of : Named → String
name_of s = s.0

abbrev pub deps_of : Named → List String
deps_of s = s.1

abbrev pub listed : MapOrder
listed path ks = ks

abbrev pub graph_of : List Named → Graph Named
graph_of services = new_graph name_of deps_of services service_stopped

abbrev pub chain : List Named
chain = ("web", "api" ∷ "cache" ∷ []) ∷ ("api", "db" ∷ []) ∷ ("cache", "db" ∷ []) ∷ ("db", []) ∷ []

abbrev pub looped : List Named
looped = ("web", "api" ∷ []) ∷ ("api", "db" ∷ []) ∷ ("db", "api" ∷ []) ∷ []

pub has_cycles-chain : has_cycles listed (graph_of chain) ≡ done tt
unfolding has_cycles visit visit_children remove contains new_graph add_edge connect add_vertex
    put_key insert modify lookup
has_cycles-chain = refl

pub has_cycles-looped :
    has_cycles listed (graph_of looped) ≡ cycle_found ("web" ∷ "api" ∷ "db" ∷ "api" ∷ [])
unfolding has_cycles visit visit_children remove contains new_graph add_edge connect add_vertex
    put_key insert modify lookup
has_cycles-looped = refl

has_cycles_decides_example :
    ((has_cycles listed (graph_of looped) ≡ done tt) × IsAcyclic (graph_of looped))
    ⊎ ((p : List String) × (has_cycles listed (graph_of looped) ≡ cycle_found p)
        × IsClosedTrail (graph_of looped) p)
has_cycles_decides_example =
    has_cycles_decides listed (graph_of looped) (λ path ks k. refl)
      (new_graph-IsLinked name_of deps_of looped service_stopped)

is_child-new_graph_example :
    is_child (graph_of chain) "web" "api"
    ≡ (lists name_of deps_of chain "web" "api" && is_named name_of deps_of chain "api")
is_child-new_graph_example = is_child-new_graph name_of deps_of chain service_stopped "web" "api"

new_graph-IsLinked_example : IsLinked (graph_of chain)
new_graph-IsLinked_example = new_graph-IsLinked name_of deps_of chain service_stopped
