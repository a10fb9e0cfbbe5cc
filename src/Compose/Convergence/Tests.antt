-- ===== src/Compose/Convergence/Tests.antt =====
-- A service with two containers that is scaled to three, and the theorems about
-- local/compose/convergence.go at it.
use Prim.Native.String.{◌++◌ as ◌⊕◌}
use compose_cli.Prelude.{
  String, ◌≡◌, refl, Option, some, List, [], ◌∷◌, All, arith, true, ◌==◌, if◌then◌else◌,
}
use compose_cli.Prelude.GoMap.{lookup, insert}
use compose_cli.Prelude.Results.{ok, err}
use compose_cli.Go.Ints.{pos}
use compose_cli.Go.Strconv.{atoi, itoa, itoa_int}
use compose_cli.Compose.Util.{contains}
use compose_cli.Compose.Types.{
  Container, ServiceConfig, Project, label, service_label, container_number_label,
  config_hash_label,
}
use compose_cli.Compose.Containers.{get_canonical_container_name, filter, is_service}
use compose_cli.Compose.Convergence.{set_dependent_lifecycle}
use compose_cli.Compose.Convergence.{
  get_scale, next_container_number, max_number, get_container_name, create_missing, remove_all,
  ensure_scale, decide, decide_all, converge_kept, ensure_service, create, recreate, Job,
  doubled_container_name,
}
use compose_cli.Compose.Convergence.Scaling.{IsNumberedBelow, next_container_number-above}
use compose_cli.Compose.Convergence.Naming.{AreDistinct, created_names, created_distinct}
use compose_cli.Compose.Convergence.Deciding.{recreates}
use compose_cli.Compose.Convergence.Dependents.{set_dependent_lifecycle-recreates}
use compose_cli.Compose.Convergence.Service.{IsConvergence, ensure_service-IsConvergence}

program : Unit {0}
unfolding lookup insert atoi itoa itoa_int contains label get_canonical_container_name filter
    is_service get_scale next_container_number max_number get_container_name create_missing
    remove_all ensure_scale decide decide_all converge_kept ensure_service set_dependent_lifecycle
program = tt

abbrev pub web : ServiceConfig
web = record {
  name = "web";
  container_name = "";
  scale = pos 3;
  replicas = some 7;
  extensions = [];
  labels = [];
  image = "";
  network_mode = "";
  networks = [];
  ports = [];
  volumes = [];
  volumes_from = [];
  secrets = [];
}

abbrev numbered : String → String → String → Container
numbered number hash state = record {
  id = "0123456789abcdef" ⊕ number;
  names = ("/app_web_" ⊕ number) ∷ [];
  labels =
      (service_label, "web") ∷ (container_number_label, number) ∷ (config_hash_label, hash) ∷ [];
  state = state;
}

abbrev two : List Container
two = numbered "1" "h0" "running" ∷ numbered "4" "old" "exited" ∷ []

abbrev pub app : Project
app = record {
  name = "app";
  services = web ∷ [];
  networks = [];
  volumes = [];
  secrets = [];
  working_dir = "/app";
  compose_files = "compose.yml" ∷ [];
}

abbrev hash : ServiceConfig → Option String
hash service = some "h0"

abbrev one_job : List Job
one_job = create "app_web_5" (pos 5) ∷ []

ensure_scale-two : ensure_scale "app" web two (pos 3) ≡ ok (one_job, two)
unfolding program
ensure_scale-two = refl

get_scale_doubled :
    get_scale (record web { container_name = "shop" }) ≡ err (doubled_container_name "web" "shop")
unfolding program
get_scale_doubled = refl

ensure_service-two : (ensure_service hash two app web).decided ≡ recreate 1 ∷ []
unfolding program
ensure_service-two = refl

next_container_number-above_example : All (IsNumberedBelow 5) two
unfolding program
next_container_number-above_example = next_container_number-above two 5 refl

created_distinct_example : AreDistinct (created_names one_job)
unfolding program
created_distinct_example =
    created_distinct "app" web two two 3 5 one_job refl refl refl refl (omega arith)

ensure_service-IsConvergence_example :
    IsConvergence hash two app web (ensure_service hash two app web)
unfolding program
ensure_service-IsConvergence_example = ensure_service-IsConvergence hash two app web refl

abbrev api : ServiceConfig
api = record web { name = "api"; scale = pos 1 }

abbrev site : Project
site = record app { services = web ∷ api ∷ [] }

-- Service `api` depends on `web`.
abbrev dependencies : ServiceConfig → List String
dependencies s = if s.name == "api" then "web" ∷ [] else []

abbrev marked_api : ServiceConfig
marked_api = record api { extensions = ("x-lifecycle", "force_recreate") ∷ [] }

abbrev current : Container
current = record {
  id = "fedcba98765432101";
  names = "/app_api_1" ∷ [];
  labels = (service_label, "api") ∷ (container_number_label, "1") ∷ (config_hash_label, "h0") ∷ [];
  state = "running";
}

set_dependent_lifecycle-recreates_example :
    recreates (ensure_service hash (current ∷ two) site marked_api).decided 0 ≡ true
unfolding program
set_dependent_lifecycle-recreates_example =
    set_dependent_lifecycle-recreates dependencies hash (current ∷ two) site "web" 1 0 api
      marked_api current refl refl refl refl refl
