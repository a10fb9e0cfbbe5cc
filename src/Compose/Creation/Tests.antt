-- ===== src/Compose/Creation/Tests.antt =====
-- A service with two containers that is brought up again, and the theorems about
-- local/compose/create.go at it.
use Prim.Native.String.{◌++◌ as ◌⊕◌, ◌∷◌ as char_then}
use compose_cli.Prelude.{ℕ, String, ◌≡◌, refl, Bool, false, not_same_text, none, some, [], ◌∷◌}
use compose_cli.Prelude.GoMap.{lookup, insert, has}
use compose_cli.Go.Ints.{pos}
use compose_cli.Go.Strconv.{itoa}
use compose_cli.Compose.Types.{Container, ServiceConfig, Project, label, service_label}
use compose_cli.Compose.Convergence.{get_scale, ensure_service}
use compose_cli.Compose.Creation.{
  create_labels, copy_labels, get_image_name, build_container_ports, build_container_port_bindings,
  mode, get_network_mode, get_aliases, build_default_network_config,
}
use compose_cli.Compose.Creation.Reloading.{
  load_project_options_from_labels, load_project_options_from_labels-create_labels,
}
use compose_cli.Compose.Convergence.Selection.{nothing, takes, skips}
use compose_cli.Compose.Creation.Idempotence.{IsMadeFor, ensure_service-idempotent}
use compose_cli.Compose.Creation.Bindings.{
  last_with, bound, build_container_port_bindings-last_with,
}

abbrev pub web : ServiceConfig
web = record {
  name = "web";
  container_name = "";
  scale = pos 2;
  replicas = none;
  extensions = [];
  labels = ("tier", "front") ∷ [];
  image = "";
  network_mode = "";
  networks = ("back", some ("www" ∷ [])) ∷ [];
  ports =
      record { target = 80; published = 8080; protocol = "tcp" }
      ∷ record { target = 80; published = 8081; protocol = "tcp" }
      ∷ [];
  volumes = [];
  volumes_from = [];
  secrets = [];
}

abbrev pub app : Project
app = record {
  name = "app";
  services = web ∷ [];
  networks = ("back", "app_back") ∷ [];
  volumes = [];
  secrets = [];
  working_dir = "/app";
  compose_files = "a.yml" ∷ "b.yml" ∷ [];
}

abbrev running : ℕ → Container
running n = record {
  id = "c" ⊕ itoa n;
  names = char_then "/" ("app_web_" ⊕ itoa n) ∷ [];
  labels = create_labels "h0" app web (pos n);
  state = "running";
}

image_of_web : get_image_name web "app" ≡ "app_web"
unfolding get_image_name
image_of_web = refl

starts_with_none : String → String → Bool
starts_with_none t prefix = false

network_of_web : get_network_mode starts_with_none "back" app web ≡ mode "app_back"
unfolding get_network_mode lookup
network_of_web = refl

aliases_of_web :
    build_default_network_config web "back" "app_web_1" ≡ ("back", "web" ∷ "www" ∷ "app_web_1" ∷ [])
unfolding build_default_network_config get_aliases lookup
aliases_of_web = refl

-- A container of another service, which is down.
abbrev foreign : Container
foreign = record {
  id = "d1";
  names = "/app_db_1" ∷ [];
  labels = (service_label, "db") ∷ [];
  state = "exited";
}

ensure_service-idempotent_example :
    (let s = ensure_service (λ service. some "h0") (running 1 ∷ foreign ∷ running 2 ∷ []) app web in
      (s.scaling ≡ [])
      × (s.decided ≡ [])
      × (s.kept ≡ running 1 ∷ running 2 ∷ [])
      × (s.fault ≡ none))
unfolding get_scale lookup insert has label copy_labels create_labels
ensure_service-idempotent_example =
    ensure_service-idempotent "h0" app web (λ service. some "h0") (running 1 ∷ running 2 ∷ [])
      (running 1 ∷ foreign ∷ running 2 ∷ []) refl refl refl
      (takes (running 1) refl
        (skips foreign (not_same_text "db" "web" refl) (takes (running 2) refl nothing)))
      (made 1, (made 2, tt))
  where
    made : (n : ℕ) → IsMadeFor "h0" app web (running n)
    made n = record {
      number = pos n;
      name = "app_web_" ⊕ itoa n;
      labelled = refl;
      named = refl;
      running = refl;
    }

lost_port : lookup "80/tcp" (build_container_port_bindings web.ports []) ≡ some ("8081" ∷ [])
unfolding lookup insert build_container_port_bindings itoa
lost_port = refl

build_container_port_bindings-last_with_example :
    (has "80/tcp" (build_container_ports web.ports [])
      ≡ has "80/tcp" (build_container_port_bindings web.ports []))
    × (lookup "80/tcp" (build_container_port_bindings web.ports [])
        ≡ bound (last_with "80/tcp" none web.ports))
build_container_port_bindings-last_with_example =
    build_container_port_bindings-last_with web.ports "80/tcp"

load_project_options_from_labels-create_labels_example :
    load_project_options_from_labels (λ t. t) (running 1)
    ≡ record { config_paths = "a.yml" ∷ "b.yml" ∷ []; working_dir = "/app"; name = "app" }
load_project_options_from_labels-create_labels_example =
    load_project_options_from_labels-create_labels (λ t. t) "h0" app web (pos 1) (running 1) "a.yml"
      ("b.yml" ∷ []) refl refl
      ((refl, (refl, (refl, (refl, (refl, tt))))), ((refl, (refl, (refl, (refl, (refl, tt))))), tt))
