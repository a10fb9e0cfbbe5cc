-- ===== src/Context/Store/Laws.antt =====
-- What api/context/store/store.go promises of a context through its life: made, read, removed.
use text.Mathlib.TextEquality.{eq_iff}
use compose_cli.Prelude.{
  String, ◌≡◌, ◌≢◌, ◌∙◌, ap, true, false, Bool-cases, inl, inr, none, some, [], ◌∷◌, ◌==◌, ==-false,
  arith,
}
use compose_cli.Prelude.GoMap.{lookup, insert, has, lookup-insert}
use compose_cli.Prelude.Results.{ok, err}
use compose_cli.Context.Metadata.{DockerContext, context_type}
use compose_cli.Context.Store.{
  not_found, Directory, Root, Os, Externals, lifted, getters, plain_endpoint, get_endpoint,
  endpoint_of, to_typed_endpoints, decode, read_file, get, context_exists, new_context, write_meta,
  create_context,
}

-- Every call of the operating system succeeds.
abbrev pub quiet : {E File : Type 0} → Os E File
quiet = record {
  stat = none;
  mkdir = none;
  write = none;
  read = none;
  read_dir = none;
  remove_all = none;
}

module _ {V D E File : Type 0} (ext : Externals V D E File) where
  get-insert :
      (name : String) (d : Directory File) (root : Root File)
      → name ≢ "default"
      → get ext quiet (insert (ext.digest name) d root) name
        ≡ (elim d.meta [ none ↦ err (not_found name) | some file ↦ lifted (decode ext file) ])
  unfolding get read_file
  get-insert name d root other = ground (
    arith,
    ==-false name "default" other,
    lookup-insert (ext.digest name) (ext.digest name) d root,
    eq_iff (ext.digest name) (ext.digest name),
  )

  context_exists-quiet :
      (root : Root File) (name : String)
      → name ≢ "default"
      → context_exists ext quiet root name ≡ has (ext.digest name) root
  unfolding context_exists
  context_exists-quiet root name other = ground (arith, ==-false name "default" other)

  -- A name that the store does not hold: `Create` succeeds, and makes a directory with the encoding.
  create_context-new :
      (root : Root File) (name type description : String) (value : D) (file : File)
      → name ≢ "default"
      → has (ext.digest name) root ≡ false
      → ext.marshal (new_context name type description value) ≡ ok file
      → create_context ext quiet root name type description value ≡ (
        ok tt,
        insert
            (ext.digest name)
            (record { meta = some file })
            (insert (ext.digest name) (record { meta = none }) root),
      )
  unfolding create_context write_meta context_exists
  create_context-new root name type description value file other absent encoded =
      ground (arith, ==-false name "default" other)

  -- What `GetEndpoint` finds in an encoding.
  get-create_context :
      (root : Root File) (name type description : String) (value : D) (file : File)
      → name ≢ "default"
      → has (ext.digest name) root ≡ false
      → ext.marshal (new_context name type description value) ≡ ok file
      → get ext quiet (create_context ext quiet root name type description value).1 name
        ≡ lifted (decode ext file)
  get-create_context root name type description value file other absent encoded = rw (
    create_context-new root name type description value file other absent encoded,
    get-insert name (record { meta = some file })
        (insert (ext.digest name) (record { meta = none }) root) other,
  )

  typed_endpoints :
      (type : String) (value raw docker : D)
      → ext.retype (getters type) raw ≡ ok value
      → ext.retype plain_endpoint raw ≡ ok docker
      → to_typed_endpoints ext (insert type raw (("docker", raw) ∷ []))
        ≡ ok (insert type value (("docker", docker) ∷ []))
  unfolding to_typed_endpoints insert getters
  typed_endpoints type value raw docker typed_raw docker_raw =
      elim (Bool-cases ("docker" == type)) [
        | inl same ↦ rw (same, typed_raw)
        | inr apart ↦ rw (apart, docker_raw, typed_raw)
      ]

  endpoint_of-found :
      (dst value : D) (meta : DockerContext V D)
      → lookup (context_type meta) meta.endpoints ≡ some value
      → ext.same_type dst value ≡ true
      → endpoint_of ext dst meta ≡ ok value
  unfolding endpoint_of
  endpoint_of-found dst value meta found same = ground arith

  get_endpoint-get :
      (os : Os E File) (root : Root File) (name : String) (dst value : D) (meta : DockerContext V D)
      → get ext os root name ≡ ok meta
      → lookup (context_type meta) meta.endpoints ≡ some value
      → ext.same_type dst value ≡ true
      → get_endpoint ext os root name dst ≡ ok value
  unfolding get_endpoint
  get_endpoint-get os root name dst value meta got found same =
      rw got (endpoint_of-found dst value meta found same)

  lookup-context_type :
      (meta : DockerContext V D) (value docker : D)
      → meta.metadata.type ≢ ""
      → lookup (context_type meta) (insert meta.metadata.type value (("docker", docker) ∷ []))
        ≡ some value
  unfolding context_type
  lookup-context_type meta value docker typed = ground (
    arith,
    ==-false meta.metadata.type "" typed,
    eq_iff meta.metadata.type meta.metadata.type,
    lookup-insert meta.metadata.type meta.metadata.type value (("docker", docker) ∷ []),
  )

  abbrev restored : String → String → String → D → D → D → DockerContext V D
  restored name type description value raw docker = record (new_context name type description raw) {
    endpoints = insert type value (("docker", docker) ∷ []);
  }

  decode-new_context :
      (name type description : String) (value raw docker : D) (file : File)
      → ext.unmarshal file ≡ ok (new_context name type description raw)
      → ext.retype (getters type) raw ≡ ok value
      → ext.retype plain_endpoint raw ≡ ok docker
      → decode ext file ≡ ok (restored name type description value raw docker)
  unfolding decode
  decode-new_context name type description value raw docker file decoded typed_raw docker_raw =
      rw (decoded, typed_endpoints type value raw docker typed_raw docker_raw)

  -- `Create` of a name that the store does not hold returns nil, and `GetEndpoint` then sets a
  -- variable of the endpoint's type to the data that `Create` was given. Conditions: the name is
  -- not the default one, the type is not empty, no call of the operating system fails, the JSON
  -- of the context is encoded and is decoded to the context with raw endpoints, a raw endpoint is
  -- decoded to its data, and the variable has the type of the data.
  pub get_endpoint-create_context :
      (root : Root File) (name type description : String) (value raw docker dst : D) (file : File)
      → name ≢ "default"
      → type ≢ ""
      → has (ext.digest name) root ≡ false
      → ext.marshal (new_context name type description value) ≡ ok file
      → ext.unmarshal file ≡ ok (new_context name type description raw)
      → ext.retype (getters type) raw ≡ ok value
      → ext.retype plain_endpoint raw ≡ ok docker
      → ext.same_type dst value ≡ true
      → (let r = create_context ext quiet root name type description value in
          (r.0 ≡ ok tt) × (get_endpoint ext quiet r.1 name dst ≡ ok value))
  get_endpoint-create_context root name type description value raw docker dst file other typed
        absent encoded decoded typed_raw docker_raw same =
      (
        ap (λ r. r.0)
            (create_context-new root name type description value file other absent encoded),
        get_endpoint-get quiet (create_context ext quiet root name type description value).1 name
            dst value (restored name type description value raw docker)
            (get-create_context root name type description value file other absent encoded
              ∙ ap lifted (
                  decode-new_context name type description value raw docker file decoded typed_raw
                    docker_raw))
            (lookup-context_type (restored name type description value raw docker) value docker
              typed)
            same,
      )
