-- ===== src/Compose/Recreation/Tests.antt =====
-- A container that is replaced, and the theorems about local/compose/convergence.go at it.
use compose_cli.Prelude.{String, ◌≡◌, inr, refl, Bool, true, false, none, some, List, [], ◌∷◌}
use compose_cli.Prelude.GoMap.{lookup}
use compose_cli.Go.Ints.{pos}
use compose_cli.Go.Strconv.{atoi, scan, scan_all, itoa, itoa_int}
use compose_cli.Prelude.{◌==◌, if◌then◌else◌}
use compose_cli.Compose.Types.{Project, Container, ServiceConfig, label, container_number_label}
use compose_cli.Compose.Containers.{
  get_canonical_container_name, first_canonical, without_slash, drop_first,
}
use compose_cli.Compose.Convergence.{get_container_name}
use compose_cli.Compose.Creation.Tests.{web, app}
use compose_cli.Compose.Recreation.{
  ContainerCall, stop, rename, create, connect, start, prefix, connect_all, create_moby_container,
  create_container, restart_container, recreate_container,
}
use compose_cli.Compose.Recreation.Dependents.{forced_dependents}
use compose_cli.Compose.Recreation.Script.{
  run_script, script, recreate_container-run_script, recreate_container-unprepared,
}

abbrev old : Container
old = record {
  id = "0123456789abcdef";
  names = "/app_web_1" ∷ [];
  labels = (container_number_label, "1") ∷ [];
  state = "running";
}

abbrev depends : ServiceConfig → List String
depends s = []

-- The engine refuses to make the new container.
abbrev refuses : ContainerCall → Bool
refuses (create name number inherit auto_remove) = true
refuses _ = false

old_name : get_canonical_container_name old ≡ some "app_web_1"
unfolding get_canonical_container_name first_canonical without_slash drop_first
old_name = refl

old_id : prefix 12 old.id ≡ some "0123456789ab"
unfolding prefix
old_id = refl

old_number : atoi (label old container_number_label) ≡ some (pos 1)
unfolding atoi scan_all scan label lookup
old_number = refl

recreate_container_refused :
    run_script refuses (script "new" app web ("back" ∷ []) old "app_web_1" "0123456789ab" (pos 1))
    ≡ (
      stop "0123456789abcdef"
          ∷ rename "0123456789abcdef" "0123456789ab_app_web_1"
          ∷ create "app_web_1" (pos 1) (some "0123456789abcdef") false
          ∷ [],
      false,
    )
unfolding run_script
recreate_container_refused = refl

create_container_connected :
    create_container (λ c. false) false "new" app web ("back" ∷ []) "app_web_3" (pos 3) false ≡ (
      create "app_web_3" (pos 3) none false
          ∷ connect "app_back" "new" ("web" ∷ "app_web_3" ∷ [])
          ∷ [],
      true,
    )
unfolding create_container create_moby_container connect_all lookup get_container_name itoa itoa_int
create_container_connected = refl

restart_container_failed :
    restart_container (λ c. true) false "new" old ≡ (start old.id ∷ [], false)
unfolding restart_container
restart_container_failed = refl

-- No call fails.
abbrev willing : ContainerCall → Bool
willing c = false

abbrev needs_web : ServiceConfig → List String
needs_web s = if s.name == "web" then [] else "web" ∷ []

abbrev shop : Project
shop = record app { services = web ∷ record web { name = "api" } ∷ [] }

recreate_container-run_script_example :
    (let run =
        run_script willing
          (script "new" shop web ("back" ∷ []) old "app_web_1" "0123456789ab" (pos 1)) in
      recreate_container willing false "new" needs_web shop web ("back" ∷ []) old
      ≡ some (run, if run.1 then forced_dependents needs_web shop "web" else shop))
recreate_container-run_script_example =
    recreate_container-run_script willing "new" needs_web shop web ("back" ∷ []) old "app_web_1"
      "0123456789ab" (pos 1) old_name old_id old_number

recreate_container-unprepared_example :
    recreate_container (λ c. false) true "new" depends app web ("back" ∷ []) old
    ≡ some (
      (
        (run_script (λ c. false) (stop old.id ∷ rename old.id "0123456789ab_app_web_1" ∷ [])).0,
        false,
      ),
      app,
    )
recreate_container-unprepared_example =
    recreate_container-unprepared (λ c. false) true "new" depends app web ("back" ∷ []) old
      "app_web_1" "0123456789ab" old_name old_id (inr refl)
