-- ===== src/Compose/Dependencies/Traversal/Projects.antt =====
-- The walks that `InDependencyOrder` and `InReverseDependencyOrder` of
-- local/compose/dependencies.go begin, over the services of a project.
use mathlib.Core.Path.{subst}
use mathlib.Core.WellFounded.{Acc}
use compose_cli.Prelude.{
  inl, inr, String, ◌≡◌, refl, sym, ◌∙◌, Bool, true, ◌&&◌, none, List, [], ◌∷◌, ◌++◌, arith,
}
use compose_cli.Prelude.GoMap.{has}
use compose_cli.Compose.Dependencies.Graph.{
  ServiceStatus, service_stopped, service_started, same_status, Vertex, Graph, new_graph,
}
use compose_cli.Compose.Dependencies.Edges.{is_vertex, IsLinked}
use compose_cli.Compose.Dependencies.Build.{
  is_named, lists, is_child-new_graph, is_vertex-new_graph, new_graph-IsLinked,
}
use compose_cli.Compose.Dependencies.Fields.{new_graph-named, new_graph-status}
use compose_cli.Compose.Dependencies.Cycles.{LawfulOrder, done, MapOrder, has_cycles}
use compose_cli.Compose.Dependencies.Walks.{IsAcyclic}
use compose_cli.Compose.Dependencies.Cycles.Decides.{has_cycles_decides}
use compose_cli.Compose.Dependencies.Traversal.Grounding.{up_chains, down_chains}
use compose_cli.Compose.Dependencies.Traversal.Liveness.{Reach-Live, all_finished}
use compose_cli.Compose.Dependencies.Cycles.Complete.{>>-done}
use compose_cli.Compose.Dependencies.Traversal.{
  SameKeys, TraversalConfig, up_direction, down_direction, Event, launched, Run, Reach, initial_run,
  visit_project, in_dependency_order, in_reverse_dependency_order,
}
use compose_cli.Compose.Dependencies.Traversal.Direction.{
  children_waits, parents_waits, in_state, waits_for, IsDirection, up-IsDirection, down-IsDirection,
}
use compose_cli.Compose.Dependencies.Traversal.Safety.{
  IsOrdered, IsReady, Reach-Inv, has_finished, IsOrdered-split,
}

same_status_refl : (a : ServiceStatus) → same_status a a ≡ true
same_status_refl service_stopped = refl
same_status_refl service_started = refl

both : {a b : Bool} → a ≡ true → b ≡ true → (a && b) ≡ true
both p q = ground arith

IsAcyclic-of_done :
    {S : Type 0} (order : MapOrder) (g : Graph S)
    → LawfulOrder order
    → IsLinked g
    → has_cycles order g ≡ done tt
    → IsAcyclic g
IsAcyclic-of_done order g lawful linked e = elim (has_cycles_decides order g lawful linked) [
  | inl (same, acyclic) ↦ acyclic
  | inr (p, failed, closed) ↦ absurd (cc (sym e ∙ failed))
]

module _ {S : Type 0} (name : S → String) (get_dependencies : S → List String) where
  in_state-new_graph :
      (services : List S) (initial : ServiceStatus) (k : String)
      → is_vertex (new_graph name get_dependencies services initial) k ≡ true
      → in_state (new_graph name get_dependencies services initial) initial k ≡ true
  unfolding has
  in_state-new_graph services initial k vertex =
      ground
        (arith, new_graph-status name get_dependencies initial services k, same_status_refl initial)

  pub new_graph-IsReady :
      (config : TraversalConfig S) {edges : Vertex S → List String}
      (direction : IsDirection config edges) (services : List S)
      → IsReady name config direction
          (new_graph name get_dependencies services config.adjacent_service_status_to_skip)
  new_graph-IsReady config direction services = record {
    linked = new_graph-IsLinked name get_dependencies services _;
    named = new_graph-named name get_dependencies _ services;
    waiting = in_state-new_graph services _;
  }

  module _ {E : Type 0} (order : MapOrder) (ranged : List String → List String)
      (services : List S) where
    visit_project-done :
        (config : TraversalConfig S) (initial : ServiceStatus) {start : Run S E}
        → visit_project name get_dependencies order ranged config initial services ≡ done start
        → (has_cycles order (new_graph name get_dependencies services initial) ≡ done tt)
          × (start
              ≡ initial_run (new_graph name get_dependencies services initial) (
                  ranged
                    (config.extremity_nodes (new_graph name get_dependencies services initial))))
    unfolding visit_project
    visit_project-done config initial e =
        let (u, acyclic, begins) = >>-done _ _ _ e in (acyclic, begins)

    visit_project_ordered :
        (config : TraversalConfig S) {edges : Vertex S → List String}
        (direction : IsDirection config edges) (start s : Run S E) (post pre : List Event)
        (n c : String)
        → visit_project name get_dependencies order ranged config
            config.adjacent_service_status_to_skip services
          ≡ done start
        → Reach name config start s
        → s.log ≡ post ++ launched n ∷ pre
        → waits_for edges
            (new_graph name get_dependencies services config.adjacent_service_status_to_skip)
            n
            c
          ≡ true
        → has_finished pre c ≡ true
    visit_project_ordered config {edges} direction start s post pre n c begins reached log waits =
        let g = new_graph name get_dependencies services config.adjacent_service_status_to_skip in
        let ready = new_graph-IsReady config direction services in
        let (acyclic, first) = visit_project-done config _ begins in
        let inv =
          Reach-Inv name config direction g ready _
            (subst (λ r. Reach name config r s) first reached) in
        IsOrdered-split (waits_for edges g) post pre n c
          (subst (IsOrdered (waits_for edges g)) log inv.ordered) waits

    visit_project_complete :
        (config : TraversalConfig S) {edges : Vertex S → List String}
        (direction : IsDirection config edges) (start s : Run S E) (k : String)
        → LawfulOrder order
        → ((ks : List String) → SameKeys (ranged ks) ks)
        → ((IsAcyclic
              (new_graph name get_dependencies services config.adjacent_service_status_to_skip))
            → Acc
                (λ c j.
                  waits_for edges
                    (new_graph name get_dependencies services
                      config.adjacent_service_status_to_skip)
                    j
                    c
                  ≡ true)
                k)
        → visit_project name get_dependencies order ranged config
            config.adjacent_service_status_to_skip services
          ≡ done start
        → Reach name config start s
        → s.tasks ≡ []
        → s.error ≡ none
        → is_named name get_dependencies services k ≡ true
        → has_finished s.log k ≡ true
    visit_project_complete config {edges} direction start s k lawful same chains begins reached over
          fine named =
        let initial = config.adjacent_service_status_to_skip in
        let g = new_graph name get_dependencies services initial in
        let ready = new_graph-IsReady config direction services in
        let (no_cycle, first) = visit_project-done config initial begins in
        let live =
          Reach-Live name config direction g ready _ (same (config.extremity_nodes g))
            (subst (λ r. Reach name config r s) first reached) in
        all_finished name config direction g ready s live over fine k
          (chains (IsAcyclic-of_done order g lawful ready.linked no_cycle))
          (is_vertex-new_graph name get_dependencies services initial k ∙ named)

    -- `InDependencyOrder` launches a service only after every service of the project that it
    -- depends on has finished, whatever the schedule.
    pub in_dependency_order_safe :
        (start s : Run S E) (post pre : List Event) (n c : String)
        → in_dependency_order name get_dependencies order ranged services ≡ done start
        → Reach name up_direction start s
        → s.log ≡ post ++ launched n ∷ pre
        → lists name get_dependencies services n c ≡ true
        → is_named name get_dependencies services c ≡ true
        → has_finished pre c ≡ true
    unfolding in_dependency_order
    in_dependency_order_safe start s post pre n c begins reached log depends known =
        visit_project_ordered up_direction up-IsDirection start s post pre n c begins reached log (
          children_waits (new_graph name get_dependencies services service_stopped) n c
          ∙ is_child-new_graph name get_dependencies services service_stopped n c
          ∙ both depends known)

    -- `InReverseDependencyOrder` launches a service only after every service of the project that
    -- depends on it has finished, whatever the schedule.
    pub in_reverse_dependency_order_safe :
        (start s : Run S E) (post pre : List Event) (n c : String)
        → in_reverse_dependency_order name get_dependencies order ranged services ≡ done start
        → Reach name down_direction start s
        → s.log ≡ post ++ launched n ∷ pre
        → lists name get_dependencies services c n ≡ true
        → is_named name get_dependencies services n ≡ true
        → has_finished pre c ≡ true
    unfolding in_reverse_dependency_order
    in_reverse_dependency_order_safe start s post pre n c begins reached log depends known =
        let g = new_graph name get_dependencies services service_started in
        visit_project_ordered down_direction down-IsDirection start s post pre n c begins reached
          log
          (parents_waits g n c
            ∙ (new_graph-IsLinked name get_dependencies services service_started).mirrored c n
            ∙ is_child-new_graph name get_dependencies services service_started c n
            ∙ both depends known)

    -- When the walk of `InDependencyOrder` is over and no call failed, every service has finished.
    pub in_dependency_order_complete :
        (start s : Run S E) (k : String)
        → LawfulOrder order
        → ((ks : List String) → SameKeys (ranged ks) ks)
        → in_dependency_order name get_dependencies order ranged services ≡ done start
        → Reach name up_direction start s
        → s.tasks ≡ []
        → s.error ≡ none
        → is_named name get_dependencies services k ≡ true
        → has_finished s.log k ≡ true
    unfolding in_dependency_order
    in_dependency_order_complete start s k lawful same begins reached over fine named =
        let g = new_graph name get_dependencies services service_stopped in
        visit_project_complete up_direction up-IsDirection start s k lawful same
          (λ acyclic.
            up_chains g (new_graph-IsLinked name get_dependencies services service_stopped) acyclic
              k (is_vertex-new_graph name get_dependencies services service_stopped k ∙ named))
          begins reached over fine named

    -- The same of `InReverseDependencyOrder`.
    pub in_reverse_dependency_order_complete :
        (start s : Run S E) (k : String)
        → LawfulOrder order
        → ((ks : List String) → SameKeys (ranged ks) ks)
        → in_reverse_dependency_order name get_dependencies order ranged services ≡ done start
        → Reach name down_direction start s
        → s.tasks ≡ []
        → s.error ≡ none
        → is_named name get_dependencies services k ≡ true
        → has_finished s.log k ≡ true
    unfolding in_reverse_dependency_order
    in_reverse_dependency_order_complete start s k lawful same begins reached over fine named =
        let g = new_graph name get_dependencies services service_started in
        visit_project_complete down_direction down-IsDirection start s k lawful same
          (λ acyclic.
            down_chains g (new_graph-IsLinked name get_dependencies services service_started)
              acyclic k
              (is_vertex-new_graph name get_dependencies services service_started k ∙ named))
          begins reached over fine named
