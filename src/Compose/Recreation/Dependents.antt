-- ===== src/Compose/Recreation/Dependents.antt =====
-- The services that `recreateContainer` of local/compose/convergence.go marks to be recreated.
use compose_cli.Prelude.{
  String, ◌≡◌, refl, ap, Bool, true, false, List, map, [], ◌∷◌, if◌then◌else◌,
}
use compose_cli.Compose.Types.{ServiceConfig, Project}
use compose_cli.Prelude.GoMap.{insert}
use compose_cli.Compose.Util.{contains}
use compose_cli.Compose.Convergence.{mark_all, set_dependent_lifecycle}
use compose_cli.Compose.Trace.{Trace}
use compose_cli.Compose.Recreation.{ContainerCall, marked}

-- Each service that depends on the given one is to be recreated; the others are as before.
abbrev pub forced_dependents :
    (get_dependencies : ServiceConfig → List String) → Project → String → Project
forced_dependents get_dependencies project service = record project {
  services =
      map
        (λ (s : ServiceConfig).
          if contains (get_dependencies s) service
          then record s { extensions = insert "x-lifecycle" "force_recreate" s.extensions }
          else s)
        project.services;
}

mark_all-map :
    (get_dependencies : ServiceConfig → List String) (service : String)
    (services : List ServiceConfig)
    → mark_all get_dependencies service "force_recreate" services
      ≡ map
          (λ (s : ServiceConfig).
            if contains (get_dependencies s) service
            then record s { extensions = insert "x-lifecycle" "force_recreate" s.extensions }
            else s)
          services
unfolding mark_all
mark_all-map get_dependencies service [] = refl
mark_all-map get_dependencies service (s ∷ services) =
    ap
      (◌∷◌ (
        if contains (get_dependencies s) service
        then record s { extensions = insert "x-lifecycle" "force_recreate" s.extensions }
        else s))
      (mark_all-map get_dependencies service services)

pub marked-forced_dependents :
    (fails : ContainerCall → Bool) (options_fail : Bool) (created_id : String)
    (get_dependencies : ServiceConfig → List String) (project : Project) (service : ServiceConfig)
    (t : Trace ContainerCall)
    → marked fails options_fail created_id get_dependencies project service t
      ≡ (t, if t.1 then forced_dependents get_dependencies project service.name else project)
unfolding set_dependent_lifecycle
marked-forced_dependents fails options_fail created_id get_dependencies project service
      (calls, true) =
    ap (λ services. ((calls, true), record project { services = services }))
      (mark_all-map get_dependencies service.name project.services)
marked-forced_dependents fails options_fail created_id get_dependencies project service
      (calls, false) =
    refl
