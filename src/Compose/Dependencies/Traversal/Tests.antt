-- ===== src/Compose/Dependencies/Traversal/Tests.antt =====
-- Walks over small projects, and the theorems about local/compose/dependencies.go at them.
use compose_cli.Prelude.{String, List, [], ◌∷◌, ◌≡◌, refl, true, none}
use compose_cli.Prelude.GoMap.{insert, lookup, modify}
use compose_cli.Compose.Util.{contains, remove}
use compose_cli.Compose.Dependencies.Graph.{
  Vertex, service_stopped, service_started, new_graph, put_key, connect, add_edge, add_vertex,
  leaves, roots, filter_children, filter_parents, get_parents, get_children, in_status,
  update_status,
}
use compose_cli.Compose.Dependencies.Build.{is_named, lists}
use compose_cli.Compose.Dependencies.Cycles.{done, has_cycles, visit, visit_children}
use compose_cli.Compose.Dependencies.Cycles.Tests.{Named, name_of, deps_of, listed, graph_of}
use compose_cli.Compose.Dependencies.Traversal.{
  Run, Reach, here, next, launch, leave, succeed, scanning, calling, launched, finished,
  up_direction, down_direction, initial_run, in_dependency_order, in_reverse_dependency_order,
  can_start, complete,
}
use compose_cli.Compose.Dependencies.Traversal.Safety.{has_finished}
use compose_cli.Compose.Dependencies.Traversal.Projects.{
  in_dependency_order_safe, in_dependency_order_complete, in_reverse_dependency_order_safe,
  in_reverse_dependency_order_complete,
}

abbrev pair : List Named
pair = ("web", "db" ∷ []) ∷ ("db", []) ∷ []

abbrev as_met : List String → List String
as_met ks = ks

program : Unit {0}
unfolding has_cycles visit visit_children remove contains new_graph add_edge connect add_vertex
    put_key insert modify lookup leaves roots filter_children filter_parents get_parents
    get_children in_status update_status can_start complete initial_run in_dependency_order
    in_reverse_dependency_order is_named lists
program = tt

abbrev up_start : Run Named String
up_start = initial_run (graph_of pair) ("db" ∷ [])

up_begins : in_dependency_order name_of deps_of listed as_met pair ≡ done up_start
unfolding program
up_begins = refl

abbrev web : Vertex Named
web = record {
  key = "web";
  service = ("web", "db" ∷ []);
  status = service_stopped;
  children = "db" ∷ [];
  parents = [];
}

abbrev db : Vertex Named
db = record {
  key = "db";
  service = ("db", []);
  status = service_stopped;
  children = [];
  parents = "web" ∷ [];
}

abbrev up_1 : Run Named String
up_1 = record up_start { tasks = calling "db" ∷ scanning [] ∷ []; log = launched "db" ∷ [] }

abbrev up_2 : Run Named String
up_2 = record up_1 { tasks = calling "db" ∷ [] }

abbrev up_3 : Run Named String
up_3 = record {
  graph = complete name_of up_direction (graph_of pair) db;
  tasks = scanning ("web" ∷ []) ∷ [];
  error = none;
  log = finished "db" ∷ launched "db" ∷ [];
}

abbrev up_4 : Run Named String
up_4 = record up_3 {
  tasks = calling "web" ∷ scanning [] ∷ [];
  log = launched "web" ∷ finished "db" ∷ launched "db" ∷ [];
}

abbrev up_5 : Run Named String
up_5 = record up_4 { tasks = calling "web" ∷ [] }

abbrev up_6 : Run Named String
up_6 = record {
  graph = complete name_of up_direction up_5.graph web;
  tasks = scanning [] ∷ [];
  error = none;
  log = finished "web" ∷ launched "web" ∷ finished "db" ∷ launched "db" ∷ [];
}

abbrev up_7 : Run Named String
up_7 = record up_6 { tasks = [] }

up-Reach_4 : Reach name_of up_direction up_start up_4
unfolding program
up-Reach_4 =
    next
      (next (next (next here (launch [] [] "db" [] refl refl)) (leave (calling "db" ∷ []) [] refl))
        (succeed [] [] "db" db ("web" ∷ []) refl refl (λ k. refl)))
      (launch [] [] "web" [] refl refl)

up-Reach_7 : Reach name_of up_direction up_start up_7
unfolding program
up-Reach_7 =
    next
      (next (next up-Reach_4 (leave (calling "web" ∷ []) [] refl))
        (succeed [] [] "web" web [] refl refl (λ k. refl)))
      (leave [] [] refl)

in_dependency_order_safe_example : has_finished (finished "db" ∷ launched "db" ∷ []) "db" ≡ true
unfolding program
in_dependency_order_safe_example =
    in_dependency_order_safe name_of deps_of listed as_met pair up_start up_4 []
      (finished "db" ∷ launched "db" ∷ []) "web" "db" refl up-Reach_4 refl refl refl

in_dependency_order_complete_example : has_finished up_7.log "web" ≡ true
unfolding program
in_dependency_order_complete_example =
    in_dependency_order_complete name_of deps_of listed as_met pair up_start up_7 "web"
      (λ path ks k. refl) (λ ks k. refl) refl up-Reach_7 refl refl refl

abbrev down_start : Run Named String
down_start = initial_run (new_graph name_of deps_of pair service_started) ("web" ∷ [])

abbrev down_1 : Run Named String
down_1 = record down_start { tasks = calling "web" ∷ scanning [] ∷ []; log = launched "web" ∷ [] }

abbrev down_2 : Run Named String
down_2 = record {
  graph =
      complete name_of down_direction down_start.graph (record web { status = service_started });
  tasks = scanning ("db" ∷ []) ∷ scanning [] ∷ [];
  error = none;
  log = finished "web" ∷ launched "web" ∷ [];
}

abbrev down_3 : Run Named String
down_3 = record down_2 {
  tasks = calling "db" ∷ scanning [] ∷ scanning [] ∷ [];
  log = launched "db" ∷ finished "web" ∷ launched "web" ∷ [];
}

abbrev down_4 : Run Named String
down_4 = record {
  graph = complete name_of down_direction down_3.graph (record db { status = service_started });
  tasks = scanning [] ∷ scanning [] ∷ scanning [] ∷ [];
  error = none;
  log = finished "db" ∷ launched "db" ∷ finished "web" ∷ launched "web" ∷ [];
}

abbrev down_5 : Run Named String
down_5 = record down_4 { tasks = scanning [] ∷ scanning [] ∷ [] }

abbrev down_6 : Run Named String
down_6 = record down_4 { tasks = scanning [] ∷ [] }

abbrev down_7 : Run Named String
down_7 = record down_4 { tasks = [] }

down-Reach_3 : Reach name_of down_direction down_start down_3
unfolding program
down-Reach_3 =
    next
      (next (next here (launch [] [] "web" [] refl refl)) (
        succeed [] (scanning [] ∷ []) "web" (record web { status = service_started }) ("db" ∷ [])
          refl refl (λ k. refl)))
      (launch [] (scanning [] ∷ []) "db" [] refl refl)

down-Reach_7 : Reach name_of down_direction down_start down_7
unfolding program
down-Reach_7 =
    next {t = down_6}
      (next {t = down_5}
        (next {t = down_4}
          (next down-Reach_3 (
            succeed [] (scanning [] ∷ scanning [] ∷ []) "db"
              (record db { status = service_started }) [] refl refl (λ k. refl)))
          (leave [] (scanning [] ∷ scanning [] ∷ []) refl))
        (leave [] (scanning [] ∷ []) refl))
      (leave [] [] refl)

in_reverse_dependency_order_safe_example :
    has_finished (finished "web" ∷ launched "web" ∷ []) "web" ≡ true
unfolding program
in_reverse_dependency_order_safe_example =
    in_reverse_dependency_order_safe name_of deps_of listed as_met pair down_start down_3 []
      (finished "web" ∷ launched "web" ∷ []) "db" "web" refl down-Reach_3 refl refl refl

in_reverse_dependency_order_complete_example : has_finished down_7.log "db" ≡ true
unfolding program
in_reverse_dependency_order_complete_example =
    in_reverse_dependency_order_complete name_of deps_of listed as_met pair down_start down_7 "db"
      (λ path ks k. refl) (λ ks k. refl) refl down-Reach_7 refl refl refl

-- Two services that finish one after the other before either has run on to their parent: the
-- parent is launched by both.
abbrev fork : List Named
fork = ("web", "api" ∷ "db" ∷ []) ∷ ("api", []) ∷ ("db", []) ∷ []

abbrev leaf : String → Vertex Named
leaf k = record {
  key = k;
  service = (k, []);
  status = service_stopped;
  children = [];
  parents = "web" ∷ [];
}

abbrev fork_0 : Run Named String
fork_0 = initial_run (graph_of fork) ("api" ∷ "db" ∷ [])

abbrev fork_1 : Run Named String
fork_1 = record fork_0 {
  tasks = calling "api" ∷ scanning ("db" ∷ []) ∷ [];
  log = launched "api" ∷ [];
}

abbrev fork_2 : Run Named String
fork_2 = record fork_1 {
  tasks = calling "api" ∷ calling "db" ∷ scanning [] ∷ [];
  log = launched "db" ∷ launched "api" ∷ [];
}

abbrev fork_3 : Run Named String
fork_3 = record fork_2 {
  graph = complete name_of up_direction fork_0.graph (leaf "api");
  tasks = scanning ("web" ∷ []) ∷ calling "db" ∷ scanning [] ∷ [];
  log = finished "api" ∷ launched "db" ∷ launched "api" ∷ [];
}

abbrev fork_4 : Run Named String
fork_4 = record fork_3 {
  graph = complete name_of up_direction fork_3.graph (leaf "db");
  tasks = scanning ("web" ∷ []) ∷ scanning ("web" ∷ []) ∷ scanning [] ∷ [];
  log = finished "db" ∷ finished "api" ∷ launched "db" ∷ launched "api" ∷ [];
}

abbrev fork_5 : Run Named String
fork_5 = record fork_4 {
  tasks = calling "web" ∷ scanning [] ∷ scanning ("web" ∷ []) ∷ scanning [] ∷ [];
  log = launched "web" ∷ finished "db" ∷ finished "api" ∷ launched "db" ∷ launched "api" ∷ [];
}

abbrev fork_6 : Run Named String
fork_6 = record fork_5 {
  tasks = calling "web" ∷ scanning [] ∷ calling "web" ∷ scanning [] ∷ scanning [] ∷ [];
  log =
      launched "web"
      ∷ launched "web"
      ∷ finished "db"
      ∷ finished "api"
      ∷ launched "db"
      ∷ launched "api"
      ∷ [];
}

launched_twice : Reach name_of up_direction fork_0 fork_6
unfolding program
launched_twice =
    next {t = fork_5}
      (next {t = fork_4}
        (next {t = fork_3}
          (next {t = fork_2}
            (next {t = fork_1} (next here (launch [] [] "api" ("db" ∷ []) refl refl))
              (launch (calling "api" ∷ []) [] "db" [] refl refl))
            (succeed [] (calling "db" ∷ scanning [] ∷ []) "api" (leaf "api") ("web" ∷ []) refl refl
              (λ k. refl)))
          (succeed (scanning ("web" ∷ []) ∷ []) (scanning [] ∷ []) "db" (leaf "db") ("web" ∷ [])
            refl refl (λ k. refl)))
        (launch [] (scanning ("web" ∷ []) ∷ scanning [] ∷ []) "web" [] refl refl))
      (launch (calling "web" ∷ scanning [] ∷ []) (scanning [] ∷ []) "web" [] refl refl)
