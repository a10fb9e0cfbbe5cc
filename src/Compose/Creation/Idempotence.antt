-- ===== src/Compose/Creation/Idempotence.antt =====
-- A container that local/compose/create.go labelled, seen by local/compose/convergence.go: a second
-- `up` of a project finds nothing to do.
use Prim.Native.String.{◌∷◌ as char_then}
use compose_cli.Prelude.{
  ℕ, suc, String, ◌≡◌, refl, ◌∙◌, false, Bool-cases, Option, none, some, inl, inr, List, [], ◌∷◌,
  All, length, arith, ◌==◌, eq_refl,
}
use compose_cli.Prelude.GoMap.{lookup, insert, has, lookup-insert_self, lookup-insert_other}
use compose_cli.Prelude.Results.{ok}
use compose_cli.Go.Ints.{ℤ, pos}
use compose_cli.Go.Strconv.{itoa_int}
use compose_cli.Compose.Types.{
  Container, ServiceConfig, Project, label, text_or_empty, service_label, project_label,
  version_label, compose_version, oneoff_label, working_dir_label, config_files_label,
  config_hash_label, container_number_label,
}
use compose_cli.Compose.Containers.{get_canonical_container_name}
use compose_cli.Compose.Convergence.{
  get_scale, ensure_scale, ensure_service, converge_kept, decide, decide_all, running_event, Notice,
}
use compose_cli.Compose.Convergence.Selection.{IsSelection, IsSelection-filter}
use compose_cli.Compose.Creation.{copy_labels, create_labels}

-- The container runs, and was made for this service with this hash, under this number.
pub record IsMadeFor (hash : String) (project : Project) (service : ServiceConfig) (c : Container)
    : Type 0 where
  pub number : ℤ
  pub name : String
  pub labelled : c.labels ≡ create_labels hash project service number
  pub named : c.names ≡ char_then "/" name ∷ []
  pub running : c.state ≡ "running"

module _ (hash : String) (project : Project) (service : ServiceConfig) (number : ℤ) where
  -- A key that is none of the last five.
  lookup-create_labels_inner :
      (key : String)
      → (container_number_label == key) ≡ false
      → (config_files_label == key) ≡ false
      → (working_dir_label == key) ≡ false
      → (config_hash_label == key) ≡ false
      → (oneoff_label == key) ≡ false
      → lookup key (create_labels hash project service number)
        ≡ lookup key (
            insert version_label compose_version (
              insert service_label service.name
                (insert project_label project.name (copy_labels service.labels []))))
  unfolding create_labels
  lookup-create_labels_inner key a b c d e =
      lookup-insert_other container_number_label key _ _ a
      ∙ lookup-insert_other config_files_label key _ _ b
      ∙ lookup-insert_other working_dir_label key _ _ c
      ∙ lookup-insert_other config_hash_label key _ _ d
      ∙ (elim (Bool-cases (has oneoff_label service.labels)) [
        | inl given ↦ rw given refl
        | inr missing ↦ rw missing (lookup-insert_other oneoff_label key "False" _ e)
      ])

  lookup-create_labels-service :
      lookup service_label (create_labels hash project service number) ≡ some service.name
  lookup-create_labels-service =
      lookup-create_labels_inner service_label refl refl refl refl refl
      ∙ lookup-insert_other version_label service_label compose_version _ refl
      ∙ lookup-insert_self service_label service.name _

  lookup-create_labels-hash :
      lookup config_hash_label (create_labels hash project service number) ≡ some hash
  unfolding create_labels
  lookup-create_labels-hash =
      lookup-insert_other container_number_label config_hash_label _ _ refl
      ∙ lookup-insert_other config_files_label config_hash_label _ _ refl
      ∙ lookup-insert_other working_dir_label config_hash_label _ _ refl
      ∙ lookup-insert_self config_hash_label hash _

  lookup-create_labels-number :
      lookup container_number_label (create_labels hash project service number)
      ≡ some (itoa_int number)
  unfolding create_labels
  lookup-create_labels-number = lookup-insert_self container_number_label (itoa_int number) _

module _ (hash : String) (project : Project) (service : ServiceConfig) where
  module _ (c : Container) (made : IsMadeFor hash project service c) where
    label-made_service : label c service_label ≡ service.name
    unfolding label
    label-made_service =
        rw (made.labelled, lookup-create_labels-service hash project service made.number) refl

    label-made_hash : label c config_hash_label ≡ hash
    unfolding label
    label-made_hash =
        rw (made.labelled, lookup-create_labels-hash hash project service made.number) refl

    -- The container's number is read back from its label, if it fits.
    label-made_number : label c container_number_label ≡ itoa_int made.number
    unfolding label
    label-made_number =
        rw (made.labelled, lookup-create_labels-number hash project service made.number) refl

    get_canonical_container_name-made : get_canonical_container_name c ≡ some made.name
    unfolding get_canonical_container_name
    get_canonical_container_name-made = rw made.named (ground arith)

    decide-made :
        (i : ℕ)
        → (text_or_empty (lookup "x-lifecycle" service.extensions) == "force_recreate") ≡ false
        → decide hash service i c ≡ ok ([], running_event made.name ∷ [])
    unfolding decide
    decide-made i calm =
        rw
          (
            get_canonical_container_name-made,
            label-made_hash,
            eq_refl hash,
            calm,
            made.running,
            decide,
          )
          refl

  decide_all-made :
      (i : ℕ) (observed : List Container)
      → (text_or_empty (lookup "x-lifecycle" service.extensions) == "force_recreate") ≡ false
      → All (IsMadeFor hash project service) observed
      → (notices : List Notice) × (decide_all hash service i observed ≡ ok ([], notices))
  unfolding decide_all
  decide_all-made i [] calm made = ([], refl)
  decide_all-made i (c ∷ observed) calm (made_c, made) =
      let (notices, rest) = decide_all-made (suc i) observed calm made in
      (running_event made_c.name ∷ notices, rw (decide-made c made_c i calm, rest) refl)

  ensure_scale-enough :
      (observed : List Container)
      → ensure_scale project.name service observed (pos (length observed)) ≡ ok ([], observed)
  unfolding ensure_scale
  ensure_scale-enough observed = ground arith

  -- A second `up` does nothing: of all containers of the project, let `own` be those labelled with the
  -- service. If these run, are as many as its scale, and each was made for it with its present hash,
  -- then `ensureService` starts no job, keeps them all and has no error. Conditions: the service is not
  -- marked to be recreated, and its scale and its hash are read.
  pub ensure_service-idempotent :
      (json_hash : ServiceConfig → Option String) (own observed : List Container)
      → json_hash service ≡ some hash
      → get_scale service ≡ ok (pos (length own))
      → (text_or_empty (lookup "x-lifecycle" service.extensions) == "force_recreate") ≡ false
      → IsSelection service.name own observed
      → All (IsMadeFor hash project service) own
      → (let s = ensure_service json_hash observed project service in
          (s.scaling ≡ []) × (s.decided ≡ []) × (s.kept ≡ own) × (s.fault ≡ none))
  unfolding ensure_service converge_kept
  ensure_service-idempotent json_hash own observed hashed scaled calm selected made =
      let (notices, decided) = decide_all-made 0 own calm made in
      rw
        (
          scaled,
          IsSelection-filter selected,
          ensure_scale-enough own,
          hashed,
          decided,
          ensure_service,
          converge_kept,
        )
        (refl, refl, refl, refl)
