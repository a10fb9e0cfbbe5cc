-- ===== src/Compose/Convergence/Dependents.antt =====
-- `setDependentLifecycle` of local/compose/convergence.go, and what `ensureService` then does with
-- the services of the project. A service is here the value that the project holds; the copies of it
-- that a graph's vertices hold share its map of extensions only if that map was not nil.
use mathlib.Core.Path.{subst}
use compose_cli.Prelude.{
  ℕ, zero, suc, String, ◌≡◌, sym, ap, ◌∙◌, true, Option, none, some, List, [], ◌∷◌, arith,
  get_elem?,
}
use compose_cli.Prelude.GoMap.{lookup-insert}
use compose_cli.Compose.Util.{contains}
use compose_cli.Compose.Types.{Container, ServiceConfig, Project}
use compose_cli.Compose.Convergence.{ensure_service, mark, mark_all, set_dependent_lifecycle}
use compose_cli.Compose.Convergence.Deciding.{has_diverged, recreates}
use compose_cli.Compose.Convergence.Service.{ensure_service-IsConvergence}

module _ (get_dependencies : ServiceConfig → List String) where
  mark_all-at :
      (service strategy : String) (services : List ServiceConfig) (i : ℕ) (s : ServiceConfig)
      → get_elem? services i ≡ some s
      → get_elem? (mark_all get_dependencies service strategy services) i
        ≡ some (mark get_dependencies service strategy s)
  unfolding mark_all
  mark_all-at service strategy [] i s found = absurd (ground arith)
  mark_all-at service strategy (x ∷ services) zero s found =
      ap (λ o. some (mark get_dependencies service strategy o)) (cc found)
  mark_all-at service strategy (x ∷ services) (suc i) s found =
      mark_all-at service strategy services i s found

  marked-at :
      (project : Project) (service strategy : String) (i : ℕ) (s s' : ServiceConfig)
      → get_elem? project.services i ≡ some s
      → get_elem? (set_dependent_lifecycle get_dependencies project service strategy).services i
        ≡ some s'
      → s' ≡ mark get_dependencies service strategy s
  unfolding set_dependent_lifecycle
  marked-at project service strategy i s s' before after =
      cc (sym after ∙ mark_all-at service strategy project.services i s before)

  forced :
      (service expected : String) (s : ServiceConfig) (c : Container)
      → contains (get_dependencies s) service ≡ true
      → has_diverged expected (mark get_dependencies service "force_recreate" s) c ≡ true
  unfolding has_diverged
  forced service expected s c depends =
      rw (depends, lookup-insert "x-lifecycle" "x-lifecycle" "force_recreate" s.extensions)
        (ground arith)

  -- Once `setDependentLifecycle` has marked the services that depend on a service, `ensureService`,
  -- called with one of them as the project then holds it, starts a job to recreate in the round of
  -- every container that it keeps, even of one that is up to date. Condition: it has no error. On
  -- which container the job acts is not said.
  pub set_dependent_lifecycle-recreates :
      (json_hash : ServiceConfig → Option String) (observed : List Container) (project : Project)
      (service : String) (i k : ℕ) (s s' : ServiceConfig) (c : Container)
      → get_elem? project.services i ≡ some s
      → contains (get_dependencies s) service ≡ true
      → get_elem?
          (set_dependent_lifecycle get_dependencies project service "force_recreate").services
          i
        ≡ some s'
      → (ensure_service json_hash observed project s').fault ≡ none
      → get_elem? (ensure_service json_hash observed project s').kept k ≡ some c
      → recreates (ensure_service json_hash observed project s').decided k ≡ true
  set_dependent_lifecycle-recreates json_hash observed project service i k s s' c before depends
        after fine kept =
      let convergence = ensure_service-IsConvergence json_hash observed project s' fine in
      convergence.recreated k c kept
      ∙ subst (λ x. has_diverged convergence.expected x c ≡ true)
          (sym (marked-at project service "force_recreate" i s s' before after))
          (forced service convergence.expected s c depends)
