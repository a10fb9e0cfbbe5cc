-- ===== src/Compose/Recreation.antt =====
-- How local/compose/convergence.go makes, replaces and restarts a container: the calls of the engine.
--
-- Which calls fail, whether the options of a container can be made, and the id that the engine gives
-- to a new container are parameters. `networks` is the order of the range over the networks of the
-- service. `none` is a panic.
pub mod Dependents
pub mod Script
mod Tests
use Prim.Native.String.{[] as empty, ◌∷◌ as char_then, ◌++◌ as text_append}
use compose_cli.Prelude.{
  ℕ, zero, suc, String, Bool, true, false, not, Option, none, some, List, [], ◌∷◌, if◌then◌else◌,
}
use compose_cli.Prelude.GoMap.{lookup}
use compose_cli.Go.Ints.{ℤ}
use compose_cli.Go.Strconv.{atoi}
use compose_cli.Compose.Types.{Container, ServiceConfig, Project, label, container_number_label}
use compose_cli.Compose.Containers.{get_canonical_container_name}
use compose_cli.Compose.Convergence.{get_container_name, set_dependent_lifecycle}
use compose_cli.Compose.Creation.{network_name}
use compose_cli.Compose.Trace.{Trace, and_then}

pub data ContainerCall : Type 0 where
  stop : (id : String) → ContainerCall
  rename : (id new_name : String) → ContainerCall
  create :
      (name : String) (number : ℤ) (inherit : Option String) (auto_remove : Bool) → ContainerCall
  connect : (network id : String) (aliases : List String) → ContainerCall
  start : (id : String) → ContainerCall
  remove : (id : String) → ContainerCall

-- `id[:n]`
unfoldable pub prefix : ℕ → String → Option String
prefix zero s = some empty
prefix (suc n) empty = none
prefix (suc n) (char_then c s) = elim (prefix n s) [ none ↦ none | some t ↦ some (char_then c t) ]

module _ (fails : ContainerCall → Bool) (options_fail : Bool) (created_id : String) where
  abbrev pub call : ContainerCall → Trace ContainerCall
  call c = (c ∷ [], not (fails c))

  -- The loop over the networks of the service, with `connectContainerToNetwork`.
  unfoldable pub connect_all : Project → ServiceConfig → ℤ → List String → Trace ContainerCall
  connect_all project service number [] = ([], true)
  connect_all project service number (net ∷ networks) =
      and_then
        (call (
          connect (network_name project net) created_id
            (service.name ∷ get_container_name project.name service number ∷ [])))
        (connect_all project service number networks)

  unfoldable pub create_moby_container :
      Project
      → ServiceConfig
      → List String
      → String
      → ℤ
      → Option String
      → Bool
      → Trace ContainerCall
  create_moby_container project service networks name number inherit auto_remove =
      if options_fail
      then ([], false)
      else and_then (call (create name number inherit auto_remove))
          (connect_all project service number networks)

  unfoldable pub create_container :
      Project → ServiceConfig → List String → String → ℤ → Bool → Trace ContainerCall
  create_container project service networks name number auto_remove =
      create_moby_container project service networks name number none auto_remove

  unfoldable pub restart_container : Container → Trace ContainerCall
  restart_container container = call (start container.id)

  -- The calls after the name of the container and the start of its id are read.
  unfoldable pub replace :
      Project → ServiceConfig → List String → Container → String → String → Trace ContainerCall
  replace project service networks container name short = and_then (call (stop container.id)) (
      and_then (call (rename container.id (text_append short (text_append "_" name))))
        (elim (atoi (label container container_number_label)) [
          | none ↦ ([], false)
          | some number ↦
              and_then
                (create_moby_container project service networks name number (some container.id)
                  false)
                (call (remove container.id))
        ]))

  abbrev pub marked :
      (ServiceConfig → List String)
      → Project
      → ServiceConfig
      → Trace ContainerCall
      → Trace ContainerCall × Project
  marked get_dependencies project service (calls, true) = (
    (calls, true),
    set_dependent_lifecycle get_dependencies project service.name "force_recreate",
  )
  marked get_dependencies project service (calls, false) = ((calls, false), project)

  -- The slice of the id comes after the call that stops the container.
  unfoldable pub recreate_container :
      (get_dependencies : ServiceConfig → List String)
      → Project
      → ServiceConfig
      → List String
      → Container
      → Option (Trace ContainerCall × Project)
  recreate_container get_dependencies project service networks container =
      elim (get_canonical_container_name container) [
        | none ↦ none
        | some name ↦ elim (prefix 12 container.id) [
          | none ↦
              if fails (stop container.id)
              then some ((stop container.id ∷ [], false), project)
              else none
          | some short ↦ some (
              marked get_dependencies project service
                (replace project service networks container name short))
        ]
      ]
