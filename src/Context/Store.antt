-- ===== src/Context/Store.antt =====
-- api/context/store/store.go: the contexts of a user, one directory each.
--
-- The state is the directory `contexts/meta`: the name of a subdirectory, with the `meta.json` in
-- it, if there is one. What belongs to others is a parameter: the digest that names a
-- subdirectory, encoding/json, the JSON of an endpoint decoded again into the type that its key
-- asks for, the default context of the docker command line. A call of the operating system may
-- fail for reasons that the state does not show; `Os` says how each call of one operation ends.
pub mod Laws
pub mod Isolation
pub mod Listing
pub mod Interrupted
mod Tests
use compose_cli.Prelude.{
  not, ◌++◌, String, Bool, true, false, Option, none, some, List, [], ◌∷◌, ◌==◌, if◌then◌else◌,
}
use compose_cli.Prelude.GoMap.{GoMap, lookup, insert, erase, has}
use compose_cli.Prelude.Results.{Result, ok, err, ◌>>=◌}
use compose_cli.Context.Metadata.{ContextMetadata, DockerContext, context_type}

-- `os_error` is an error of the operating system, of encoding/json or of the docker command.
pub data StoreError (E : Type 0) : Type 0 where
  not_found already_exists forbidden unknown : String → StoreError E
  wrong_context_type : StoreError E
  os_error : E → StoreError E

pub record Directory (File : Type 0) : Type 0 where
  pub meta : Option File

-- The directory `contexts/meta`.
abbrev pub Root : Type 0 → Type 0
Root File = GoMap (Directory File)

-- How the calls of one operation end, beside what the state decides. A failed write leaves a part
-- of the file, or none.
pub record Os (E File : Type 0) : Type 0 where
  pub stat : Option E
  pub mkdir : Option E
  pub write : Option (E × Option File)
  pub read : Option E
  pub read_dir : Option E
  pub remove_all : Option E

-- The Go types of endpoints, by the keys of `getters`.
pub data EndpointType : Type 0 where
  aci_context ecs_context local_context kube_context plain_endpoint : EndpointType

unfoldable pub getters : String → EndpointType
getters key =
    if key == "aci"
    then aci_context
    else if key == "ecs"
    then ecs_context
    else if key == "local"
    then local_context
    else if key == "kube"
    then kube_context
    else plain_endpoint

-- What the store calls and does not implement. `D` is the type of an endpoint's data.
pub record Externals (V D E File : Type 0) : Type 0 where
  pub digest : String → String
  pub marshal : DockerContext V D → Result E File
  pub unmarshal : File → Result E (DockerContext V D)
  pub retype : EndpointType → D → Result E D
  pub same_type : D → D → Bool
  pub docker_default_context : Result E (DockerContext V D)

abbrev pub lifted : {E A : Type 0} → Result E A → Result (StoreError E) A
lifted (ok a) = ok a
lifted (err e) = err (os_error e)

abbrev pub meta_of : {File : Type 0} → Option (Directory File) → Option File
meta_of none = none
meta_of (some d) = d.meta

abbrev pub new_context : {V D : Type 0} → String → String → String → D → DockerContext V D
new_context name type description value = record {
  name = name;
  metadata = record {
    type = type;
    description = description;
    stack_orchestrator = "";
    additional_fields = [];
  };
  endpoints = insert type value (("docker", value) ∷ []);
}

module _ {V D E File : Type 0} (ext : Externals V D E File) where
  unfoldable pub to_typed_endpoints : GoMap D → Result E (GoMap D)
  to_typed_endpoints [] = ok []
  to_typed_endpoints ((k, v) ∷ endpoints) = do
    val ← ext.retype (getters k) v
    result ← to_typed_endpoints endpoints
    ok ((k, val) ∷ result)

  unfoldable pub decode : File → Result E (DockerContext V D)
  decode file = do
    metadata ← ext.unmarshal file
    endpoints ← to_typed_endpoints metadata.endpoints
    ok (record metadata { endpoints = endpoints })

  -- `read`, where `ReadFile` finds the file.
  unfoldable pub read_file : Os E File → File → Result E (DockerContext V D)
  read_file os file = elim os.read [ none ↦ decode file | some e ↦ err e ]

  unfoldable pub get : Os E File → Root File → String → Result (StoreError E) (DockerContext V D)
  get os root name =
      if name == "default"
      then lifted ext.docker_default_context
      else (elim (meta_of (lookup (ext.digest name) root)) [
        | none ↦ err (not_found name)
        | some file ↦ lifted (read_file os file)
      ])

  -- The rest of `GetEndpoint`, for a variable of the type of `dst`; the result is its new value.
  unfoldable pub endpoint_of : D → DockerContext V D → Result (StoreError E) D
  endpoint_of dst meta = elim (lookup (context_type meta) meta.endpoints) [
    | none ↦ err (not_found (context_type meta))
    | some val ↦ if ext.same_type dst val then ok val else err wrong_context_type
  ]

  unfoldable pub get_endpoint : Os E File → Root File → String → D → Result (StoreError E) D
  get_endpoint os root name dst = do meta ← get os root name; endpoint_of dst meta

  unfoldable pub context_exists : Os E File → Root File → String → Bool
  context_exists os root name =
      if name == "default"
      then true
      else (elim os.stat [ some e ↦ true | none ↦ has (ext.digest name) root ])

  -- The rest of `Create`, once the directory is made.
  unfoldable pub write_meta :
      Os E File
      → Root File
      → String
      → DockerContext V D
      → Result (StoreError E) (Unit {0}) × Root File
  write_meta os root dir meta = elim (ext.marshal meta) [
    | err e ↦ (err (os_error e), root)
    | ok bytes ↦ elim os.write [
      | some (e, left) ↦ (err (os_error e), insert dir (record { meta = left }) root)
      | none ↦ (ok tt, insert dir (record { meta = some bytes }) root)
    ]
  ]

  unfoldable pub create_context :
      Os E File
      → Root File
      → String
      → String
      → String
      → D
      → Result (StoreError E) (Unit {0}) × Root File
  create_context os root name type description value =
      if context_exists os root name then (err (already_exists name), root) else (elim os.mkdir [
        | some e ↦ (err (os_error e), root)
        | none ↦
            write_meta os (insert (ext.digest name) (record { meta = none }) root) (ext.digest name)
              (new_context name type description value)
      ])

  -- A directory without a `meta.json` fails the read; `missing` is that error.
  unfoldable pub read_all : E → Os E File → Root File → Result E (List (DockerContext V D))
  read_all missing os [] = ok []
  read_all missing os ((dir, d) ∷ root) = do
    r ← elim d.meta [ none ↦ err missing | some file ↦ read_file os file ]
    rest ← read_all missing os root
    ok (r ∷ rest)

  -- `List`; every entry of the directory is one that the store made.
  unfoldable pub list_contexts : E → Os E File → Root File → Result E (List (DockerContext V D))
  list_contexts missing os root = do
    c ← elim os.read_dir [ some e ↦ err e | none ↦ ok root ]
    result ← read_all missing os c
    docker_default ← ext.docker_default_context
    ok (result ++ docker_default ∷ [])

  -- `os.IsNotExist` of the error of `os.Stat`.
  abbrev pub is_gone : Os E File → Root File → String → Bool
  is_gone os root name = elim os.stat [ some e ↦ false | none ↦ not (has (ext.digest name) root) ]

  -- What a failed `RemoveAll` leaves is the last argument.
  unfoldable pub remove_context :
      Os E File → Root File → String → Root File → Result (StoreError E) (Unit {0}) × Root File
  remove_context os root name left =
      if name == "default"
      then (err (forbidden name), root)
      else if is_gone os root name
      then (err (not_found name), root)
      else (elim os.remove_all [
        | some e ↦ (err (unknown name), left)
        | none ↦ (ok tt, erase (ext.digest name) root)
      ])
