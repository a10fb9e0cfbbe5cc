-- ===== src/Compose/Recreation/Script.antt =====
-- The replacement of a container in local/compose/convergence.go as a list of calls that are made
-- until one fails.
use Prim.Native.String.{◌++◌ as text_append}
use mathlib.Core.List.{append_assoc}
use compose_cli.Prelude.{
  String, ◌≡◌, refl, ap, ◌∙◌, ◌⊎◌, inl, inr, Bool, true, false, not, Bool-cases, Option-cases,
  Option, none, some, List, [], ◌∷◌, ◌++◌, if◌then◌else◌,
}
use compose_cli.Go.Ints.{ℤ}
use compose_cli.Go.Strconv.{atoi}
use compose_cli.Compose.Types.{Container, ServiceConfig, Project, label, container_number_label}
use compose_cli.Compose.Containers.{get_canonical_container_name}
use compose_cli.Compose.Convergence.{get_container_name}
use compose_cli.Compose.Creation.{network_name}
use compose_cli.Compose.Trace.{Trace, and_then}
use compose_cli.Compose.Recreation.{
  ContainerCall, stop, rename, create, connect, remove, prefix, call, connect_all,
  create_moby_container, replace, marked, recreate_container,
}
use compose_cli.Compose.Recreation.Dependents.{forced_dependents, marked-forced_dependents}

-- The calls in turn, up to the first that fails.
unfoldable pub run_script : (ContainerCall → Bool) → List ContainerCall → Trace ContainerCall
run_script fails [] = ([], true)
run_script fails (c ∷ calls) =
    let rest = run_script fails calls in if fails c then (c ∷ [], false) else (c ∷ rest.0, rest.1)

abbrev pub connects : String → Project → ServiceConfig → ℤ → List String → List ContainerCall
connects created_id project service number [] = []
connects created_id project service number (net ∷ networks) =
    connect (network_name project net) created_id
      (service.name ∷ get_container_name project.name service number ∷ [])
    ∷ connects created_id project service number networks

-- Free the name, make the new container and connect it, and only then remove the old one.
abbrev pub script :
    String
    → Project
    → ServiceConfig
    → List String
    → Container
    → String
    → String
    → ℤ
    → List ContainerCall
script created_id project service networks container name short number =
    stop container.id
      ∷ rename container.id (text_append short (text_append "_" name))
      ∷ create name number (some container.id) false
      ∷ connects created_id project service number networks
    ++ remove container.id ∷ []

not_both_read : {o : Option ℤ} {number : ℤ} → o ≡ none → o ≡ some number → ⊥
not_both_read e f = cc

and_then-call :
    (fails : ContainerCall → Bool) (c : ContainerCall) (calls : List ContainerCall)
    → and_then (c ∷ [], not (fails c)) (run_script fails calls) ≡ run_script fails (c ∷ calls)
unfolding run_script
and_then-call fails c calls = elim (Bool-cases (fails c)) [
  | inl bad ↦ rw bad refl
  | inr good ↦ rw good refl
]

single-run_script :
    (fails : ContainerCall → Bool) (c : ContainerCall)
    → ◌≡◌ {A = Trace ContainerCall} (c ∷ [], not (fails c)) (run_script fails (c ∷ []))
unfolding run_script
single-run_script fails c = elim (Bool-cases (fails c)) [
  | inl bad ↦ rw bad refl
  | inr good ↦ rw good refl
]

and_then_assoc :
    (s t u : Trace ContainerCall) → and_then (and_then s t) u ≡ and_then s (and_then t u)
and_then_assoc (calls, false) t u = refl
and_then_assoc (calls, true) (more, false) u = refl
and_then_assoc (calls, true) (more, true) u = ap (λ all. (all, u.1)) (append_assoc calls more u.0)

connect_all-run_script :
    (fails : ContainerCall → Bool) (options_fail : Bool) (created_id : String) (project : Project)
    (service : ServiceConfig) (number : ℤ) (networks : List String) (c : ContainerCall)
    → and_then
        (connect_all fails options_fail created_id project service number networks)
        (c ∷ [], not (fails c))
      ≡ run_script fails (connects created_id project service number networks ++ c ∷ [])
unfolding connect_all
connect_all-run_script fails options_fail created_id project service number [] c =
    single-run_script fails c
connect_all-run_script fails options_fail created_id project service number (net ∷ networks) c =
    let first =
      connect (network_name project net) created_id
        (service.name ∷ get_container_name project.name service number ∷ []) in
    and_then_assoc (first ∷ [], not (fails first))
      (connect_all fails options_fail created_id project service number networks)
      (c ∷ [], not (fails c))
    ∙ ap (and_then (first ∷ [], not (fails first)))
        (connect_all-run_script fails options_fail created_id project service number networks c)
    ∙ and_then-call fails first (connects created_id project service number networks ++ c ∷ [])

recreate_container-replace :
    (fails : ContainerCall → Bool) (options_fail : Bool) (created_id : String)
    (get_dependencies : ServiceConfig → List String) (project : Project) (service : ServiceConfig)
    (networks : List String) (container : Container) (name short : String)
    → get_canonical_container_name container ≡ some name
    → prefix 12 container.id ≡ some short
    → recreate_container fails options_fail created_id get_dependencies project service networks
        container
      ≡ some (
          marked fails options_fail created_id get_dependencies project service
            (replace fails options_fail created_id project service networks container name short))
unfolding recreate_container
recreate_container-replace fails options_fail created_id get_dependencies project service networks
      container name short named sliced =
    rw (named, recreate_container) (rw sliced refl)

replace-run_script :
    (fails : ContainerCall → Bool) (created_id : String) (project : Project)
    (service : ServiceConfig) (networks : List String) (container : Container) (name short : String)
    (number : ℤ)
    → atoi (label container container_number_label) ≡ some number
    → replace fails false created_id project service networks container name short
      ≡ run_script fails (script created_id project service networks container name short number)
unfolding replace create_moby_container
replace-run_script fails created_id project service networks container name short number numbered =
    let first = stop container.id in
    let second = rename container.id (text_append short (text_append "_" name)) in
    let third = create name number (some container.id) false in
    let others = connects created_id project service number networks ++ remove container.id ∷ [] in
    rw numbered (
      ap
        (λ t.
          and_then (first ∷ [], not (fails first)) (and_then (second ∷ [], not (fails second)) t))
        (and_then_assoc (third ∷ [], not (fails third))
            (connect_all fails false created_id project service number networks)
            (remove container.id ∷ [], not (fails (remove container.id)))
          ∙ ap (and_then (third ∷ [], not (fails third))) (
              connect_all-run_script fails false created_id project service number networks
                (remove container.id))
          ∙ and_then-call fails third others)
      ∙ ap (and_then (first ∷ [], not (fails first))) (and_then-call fails second (third ∷ others))
      ∙ and_then-call fails first (second ∷ third ∷ others))

two_calls :
    (fails : ContainerCall → Bool) (first second : ContainerCall)
    → ◌≡◌ {A = Trace ContainerCall}
        (and_then
          (first ∷ [], not (fails first))
          (and_then (second ∷ [], not (fails second)) ([], false)))
        ((run_script fails (first ∷ second ∷ [])).0, false)
unfolding run_script
two_calls fails first second = elim (Bool-cases (fails first)) [
  | inl bad ↦ rw bad refl
  | inr good ↦ elim (Bool-cases (fails second)) [
    | inl bad ↦ rw good (rw bad refl)
    | inr fine ↦ rw good (rw fine refl)
  ]
]

replace-unprepared :
    (fails : ContainerCall → Bool) (options_fail : Bool) (created_id : String) (project : Project)
    (service : ServiceConfig) (networks : List String) (container : Container) (name short : String)
    → (atoi (label container container_number_label) ≡ none) ⊎ (options_fail ≡ true)
    → replace fails options_fail created_id project service networks container name short
      ≡ and_then (call fails options_fail created_id (stop container.id)) (
          and_then
            (call fails options_fail created_id
              (rename container.id (text_append short (text_append "_" name))))
            ([], false))
unfolding replace create_moby_container
replace-unprepared fails options_fail created_id project service networks container name short
      unprepared =
    elim (Option-cases (atoi (label container container_number_label))) [
      | inl unread ↦ rw unread refl
      | inr (number, read) ↦ elim unprepared [
        | inl unread ↦ absurd (not_both_read unread read)
        | inr fail ↦ rw read (rw fail refl)
      ]
    ]

-- The replacement of a container makes the calls of the script up to the first that fails. If none
-- fails, each service of the project that depends on the container's is marked to be recreated, and
-- otherwise the project is as before. Conditions: the container has a name, an id of 12 characters or
-- more and a number, and the options of the new container can be made.
pub recreate_container-run_script :
    (fails : ContainerCall → Bool) (created_id : String)
    (get_dependencies : ServiceConfig → List String) (project : Project) (service : ServiceConfig)
    (networks : List String) (container : Container) (name short : String) (number : ℤ)
    → get_canonical_container_name container ≡ some name
    → prefix 12 container.id ≡ some short
    → atoi (label container container_number_label) ≡ some number
    → (let run =
          run_script fails
            (script created_id project service networks container name short number) in
        recreate_container fails false created_id get_dependencies project service networks
          container
        ≡ some (
          run,
          if run.1 then forced_dependents get_dependencies project service.name else project,
        ))
recreate_container-run_script fails created_id get_dependencies project service networks container
      name short number named sliced numbered =
    recreate_container-replace fails false created_id get_dependencies project service networks
      container name short named sliced
    ∙ ap (λ t. some (marked fails false created_id get_dependencies project service t))
        (replace-run_script fails created_id project service networks container name short number
          numbered)
    ∙ ap some (
        marked-forced_dependents fails false created_id get_dependencies project service (
          run_script fails
            (script created_id project service networks container name short number)))

-- If the number of the container cannot be read or the options of the new container cannot be made,
-- the replacement stops and renames the old container and leaves it so.
pub recreate_container-unprepared :
    (fails : ContainerCall → Bool) (options_fail : Bool) (created_id : String)
    (get_dependencies : ServiceConfig → List String) (project : Project) (service : ServiceConfig)
    (networks : List String) (container : Container) (name short : String)
    → get_canonical_container_name container ≡ some name
    → prefix 12 container.id ≡ some short
    → (atoi (label container container_number_label) ≡ none) ⊎ (options_fail ≡ true)
    → recreate_container fails options_fail created_id get_dependencies project service networks
        container
      ≡ some (
        (
          (run_script fails (
              stop container.id
              ∷ rename container.id (text_append short (text_append "_" name))
              ∷ [])).0,
          false,
        ),
        project,
      )
recreate_container-unprepared fails options_fail created_id get_dependencies project service
      networks container name short named sliced unprepared =
    recreate_container-replace fails options_fail created_id get_dependencies project service
      networks container name short named sliced
    ∙ ap (λ t. some (marked fails options_fail created_id get_dependencies project service t))
        (replace-unprepared fails options_fail created_id project service networks container name
            short unprepared
          ∙ two_calls fails (stop container.id)
              (rename container.id (text_append short (text_append "_" name))))
