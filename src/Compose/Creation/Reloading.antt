-- ===== src/Compose/Creation/Reloading.antt =====
-- The options of a project that `loadProjectOptionsFromLabels` of local/compose/down.go reads from
-- the labels which local/compose/create.go gives to a container.
use compose_cli.Prelude.{
  String, ◌≡◌, refl, ◌∙◌, List, [], ◌∷◌, map, All, Bool-cases, inl, inr, some,
}
use compose_cli.Prelude.GoMap.{GoMap, lookup, insert, has, lookup-insert_self, lookup-insert_other}
use compose_cli.Go.Ints.{ℤ}
use compose_cli.Go.Strings.{split, join, IsFree, split-join}
use compose_cli.Compose.Types.{
  Container, ServiceConfig, Project, label, project_label, service_label, version_label,
  compose_version, oneoff_label, config_hash_label, working_dir_label, config_files_label,
  container_number_label,
}
use compose_cli.Compose.Creation.{create_labels, copy_labels}

-- What is given to compose-go's NewProjectOptions, besides the environment.
pub record ProjectOptions : Type 0 where
  pub config_paths : List String
  pub working_dir : String
  pub name : String

-- `base` is filepath.Base.
unfoldable pub load_project_options_from_labels : (String → String) → Container → ProjectOptions
load_project_options_from_labels base c = record {
  config_paths = map base (split "," (label c config_files_label));
  working_dir = label c working_dir_label;
  name = label c project_label;
}

lookup-files :
    (hash : String) (p : Project) (service : ServiceConfig) (number : ℤ)
    → lookup config_files_label (create_labels hash p service number)
      ≡ some (join "," p.compose_files)
unfolding create_labels
lookup-files hash p service number =
    lookup-insert_other container_number_label config_files_label _ _ refl
    ∙ lookup-insert_self config_files_label _ _

lookup-dir :
    (hash : String) (p : Project) (service : ServiceConfig) (number : ℤ)
    → lookup working_dir_label (create_labels hash p service number) ≡ some p.working_dir
unfolding create_labels
lookup-dir hash p service number =
    lookup-insert_other container_number_label working_dir_label _ _ refl
    ∙ lookup-insert_other config_files_label working_dir_label _ _ refl
    ∙ lookup-insert_self working_dir_label _ _

lookup-own_labels :
    (p : Project) (service : ServiceConfig) (labels : GoMap String)
    → lookup project_label (
        insert version_label compose_version
          (insert service_label service.name (insert project_label p.name labels)))
      ≡ some p.name
lookup-own_labels p service labels =
    lookup-insert_other version_label project_label _ _ refl
    ∙ lookup-insert_other service_label project_label _ _ refl
    ∙ lookup-insert_self project_label _ _

lookup-project :
    (hash : String) (p : Project) (service : ServiceConfig) (number : ℤ)
    → lookup project_label (create_labels hash p service number) ≡ some p.name
unfolding create_labels
lookup-project hash p service number =
    lookup-insert_other container_number_label project_label _ _ refl
    ∙ lookup-insert_other config_files_label project_label _ _ refl
    ∙ lookup-insert_other working_dir_label project_label _ _ refl
    ∙ lookup-insert_other config_hash_label project_label _ _ refl
    ∙ (elim (Bool-cases (has oneoff_label service.labels)) [
      | inl own ↦ rw own (lookup-own_labels p service (copy_labels service.labels []))
      | inr other ↦ rw other (
          lookup-insert_other oneoff_label project_label _ _ refl
          ∙ lookup-own_labels p service (copy_labels service.labels []))
    ])

-- The options that are read from a container made for a project have the name and the directory of
-- the project, and the names of its compose files without their directories. Conditions: there is a
-- compose file, and no comma in the paths.
pub load_project_options_from_labels-create_labels :
    (base : String → String) (hash : String) (p : Project) (service : ServiceConfig) (number : ℤ)
    (c : Container) (file : String) (files : List String)
    → c.labels ≡ create_labels hash p service number
    → p.compose_files ≡ file ∷ files
    → All (IsFree ",") (file ∷ files)
    → load_project_options_from_labels base c ≡ record {
      config_paths = map base (file ∷ files);
      working_dir = p.working_dir;
      name = p.name;
    }
unfolding load_project_options_from_labels label create_labels
load_project_options_from_labels-create_labels base hash p service number c file files made given
      free =
    rw made (
      rw (lookup-files hash p service number) (
        rw (lookup-dir hash p service number) (
          rw (lookup-project hash p service number)
            (rw given (rw (split-join "," file files free) refl)))))
