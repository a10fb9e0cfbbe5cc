-- ===== src/Context/Store/Tests.antt =====
-- A store with one context, and the theorems about api/context/store at it.
use compose_cli.Prelude.{String, ◌≡◌, ◌≢◌, refl, true, false, not_same_text, some, List, [], ◌∷◌}
use compose_cli.Prelude.GoMap.{lookup, insert, erase, has}
use compose_cli.Prelude.Results.{Result, ok, err}
use compose_cli.Context.Metadata.{DockerContext, context_type}
use compose_cli.Context.Store.{
  not_found, already_exists, Root, Os, Externals, EndpointType, plain_endpoint, getters,
  to_typed_endpoints, decode, read_file, new_context, endpoint_of, get, get_endpoint,
  context_exists, write_meta, create_context, read_all, list_contexts, remove_context,
}
use compose_cli.Context.Store.Laws.{quiet, get_endpoint-create_context}
use compose_cli.Context.Store.Isolation.{
  IsCollisionFree, create_context-isolated, remove_context-gone,
}
use compose_cli.Context.Store.Interrupted.{full_disk, create_context-interrupted}

program : Unit {0}
unfolding lookup insert erase has context_type getters to_typed_endpoints decode read_file
    endpoint_of get get_endpoint context_exists write_meta create_context read_all list_contexts
    remove_context
program = tt

abbrev docker_default : DockerContext String String
docker_default = record {
  name = "default";
  metadata = record {
    type = "moby";
    description = "";
    stack_orchestrator = "";
    additional_fields = [];
  };
  endpoints = ("docker", "unix:///var/run/docker.sock") ∷ [];
}

-- A file is the context itself, with every endpoint raw.
abbrev raw_of : DockerContext String String → DockerContext String String
raw_of m = record m { endpoints = insert m.metadata.type "raw" (("docker", "raw") ∷ []) }

abbrev typed : EndpointType → String → Result String String
typed plain_endpoint d = ok "plain"
typed t d = ok "here"

abbrev ext : Externals String String String (DockerContext String String)
ext = record {
  digest = λ s. s;
  marshal = λ m. ok (raw_of m);
  unmarshal = λ m. ok m;
  retype = typed;
  same_type = λ dst val. true;
  docker_default_context = ok docker_default;
}

abbrev stored : Root (DockerContext String String)
stored = ("cloud", record { meta = some (raw_of (new_context "cloud" "aci" "" "")) }) ∷ []

digest_injective : IsCollisionFree ext
digest_injective s t e = e

get_endpoint-create_context_example :
    (let r = create_context ext quiet stored "edge" "aci" "new" "here" in
      (r.0 ≡ ok tt) × (get_endpoint ext quiet r.1 "edge" "x" ≡ ok "here"))
unfolding program
get_endpoint-create_context_example =
    get_endpoint-create_context ext stored "edge" "aci" "new" "here" "raw" "plain" "x"
      (raw_of (new_context "edge" "aci" "new" "here")) (not_same_text "edge" "default" refl)
      (not_same_text "aci" "" refl) refl refl refl refl refl refl

-- The directory cannot be written, and a directory that is removed is removed whole.
abbrev unwritable : Os String (DockerContext String String)
unwritable = full_disk "no space left"

create_context-isolated_example :
    (let created = (create_context ext unwritable stored "edge" "aci" "new" "here").1 in
      let removed = (remove_context ext unwritable stored "edge" []).1 in
      ((get ext quiet created "cloud" ≡ get ext quiet stored "cloud")
        × (context_exists ext quiet created "cloud" ≡ context_exists ext quiet stored "cloud"))
      × ((get ext quiet removed "cloud" ≡ get ext quiet stored "cloud")
          × (context_exists ext quiet removed "cloud" ≡ context_exists ext quiet stored "cloud")))
create_context-isolated_example =
    create_context-isolated ext unwritable quiet stored [] "edge" "cloud" "aci" "new" "here"
      digest_injective (not_same_text "edge" "cloud" refl) refl

remove_context-gone_example :
    (let r = remove_context ext quiet stored "cloud" [] in
      (r.0 ≡ ok tt)
      × (get ext quiet r.1 "cloud" ≡ err (not_found "cloud"))
      × (context_exists ext quiet r.1 "cloud" ≡ false)
      × (remove_context ext quiet r.1 "cloud" [] ≡ (err (not_found "cloud"), r.1)))
unfolding program
remove_context-gone_example =
    remove_context-gone ext stored [] "cloud" (not_same_text "cloud" "default" refl) refl

abbrev typed_context : DockerContext String String
typed_context = record (new_context "cloud" "aci" "" "") {
  endpoints = insert "aci" "here" (("docker", "plain") ∷ []);
}

abbrev listing : List (DockerContext String String)
listing = typed_context ∷ docker_default ∷ []

create_context-interrupted_example :
    (let after = (create_context ext unwritable stored "edge" "aci" "new" "here").1 in
      (context_exists ext quiet after "edge" ≡ true)
      × (get ext quiet after "edge" ≡ err (not_found "edge"))
      × (create_context ext quiet after "edge" "aci" "new" "here"
          ≡ (err (already_exists "edge"), after))
      × ((cs : List (DockerContext String String))
          → list_contexts ext "missing" quiet after ≢ ok cs))
unfolding program
create_context-interrupted_example =
    create_context-interrupted ext "missing" "no space left" stored "edge" "aci" "new" "here"
      (raw_of (new_context "edge" "aci" "new" "here")) (not_same_text "edge" "default" refl) refl
      refl
