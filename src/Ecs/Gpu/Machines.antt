-- ===== src/Ecs/Gpu/Machines.antt =====
-- The machine that `guessMachineType` of ecs/gpu.go chooses.
use compose_cli.Prelude.{
  ℕ, String, ◌≡◌, refl, ◌∙◌, Bool, true, ◌&&◌, Bool-cases, inl, inr, Option, none, some, ltb, All,
  List, [], ◌∷◌, arith, if◌then◌else◌,
}
use compose_cli.Prelude.Results.{Result, ok, err, ◌>>=◌}
use compose_cli.Go.Ints.{ℤ, pos, lt_int, le_int, max_int}
use compose_cli.Ecs.Types.{Service}
use compose_cli.Ecs.Gpu.{
  Floats, Machine, gpu_family, Requirements, GpuError, no_machine, filter_machines, first_or_error,
  needs_gpus, filter_requirements, combine, max_from, no_requirements, get_resource_requirements,
  to_resource_requirements_slice, candidates, guess_machine_type,
}

-- The first machine that passes the test.
abbrev pub find_machine : (Machine → Bool) → List Machine → Option Machine
find_machine test [] = none
find_machine test (m ∷ f) = if test m then some m else find_machine test f

abbrev pub found : Option Machine → Result GpuError String
found none = err no_machine
found (some m) = ok m.id

-- What the code relies on for the numbers of CPUs of machines: the order of math.Max and `>=`.
pub record AreOrdered {F : Type 0} (fl : Floats F) : Type 0 where
  pub ge-max :
      (n : ℕ) (a b : F)
      → fl.ge (fl.of_ℕ n) (fl.max a b) ≡ (fl.ge (fl.of_ℕ n) a && fl.ge (fl.of_ℕ n) b)
  pub ge-zero : (n : ℕ) → fl.ge (fl.of_ℕ n) (fl.of_ℕ 0) ≡ true

found-machine :
    (o : Option Machine)
    → (do
      m ← elim o as (λ _. Result GpuError Machine) [ none ↦ err no_machine | some m ↦ ok m ]
      ok m.id)
      ≡ found o
found-machine none = refl
found-machine (some m) = refl

lt_int-max_int : (a b c : ℤ) → lt_int (max_int a b) c ≡ (lt_int a c && lt_int b c)
lt_int-max_int a b c = ground arith

le_int-max_int : (a b c : ℤ) → le_int (max_int a b) c ≡ (le_int a c && le_int b c)
le_int-max_int a b c = ground arith

rearranged :
    (a a' b b' c c' : Bool)
    → ((a && a') && ((b && b') && (c && c'))) ≡ ((a && (b && c)) && (a' && (b' && c')))
rearranged a a' b b' c c' = ground arith

module _ {F : Type 0} (fl : Floats F) where
  -- More memory than is required, and as many CPUs and GPUs at least.
  abbrev pub meets : Requirements F → Machine → Bool
  meets r m =
      lt_int r.memory (pos m.memory)
      && (fl.ge (fl.of_ℕ m.cpus) r.cpus && le_int r.gpus (pos m.gpus))

  -- The machine meets the requirements of each service that needs GPUs.
  abbrev pub meets_all : List (Option (Requirements F)) → Machine → Bool
  meets_all [] m = true
  meets_all (none ∷ rs) m = meets_all rs m
  meets_all (some r ∷ rs) m = (if needs_gpus fl (some r) then meets r m else true) && meets_all rs m

  find-filters :
      (r : Requirements F) (f : List Machine)
      → first_or_error (
          filter_machines
            (filter_machines
              (filter_machines f (λ m. lt_int r.memory (pos m.memory)))
              (λ m. fl.ge (fl.of_ℕ m.cpus) r.cpus))
            (λ m. le_int r.gpus (pos m.gpus)))
        ≡ (elim (find_machine (meets r) f) [ none ↦ err no_machine | some m ↦ ok m ])
  unfolding filter_machines
  find-filters r [] = refl
  find-filters r (m ∷ f) = ground (arith, find-filters r f)

  module _ (ordered : AreOrdered fl) where
    meets-combine :
        (r o : Requirements F) (m : Machine)
        → meets (combine fl r (some o)) m ≡ (meets r m && meets o m)
    unfolding combine
    meets-combine r o m =
        rw
          (
            lt_int-max_int r.memory o.memory (pos m.memory),
            ordered.ge-max m.cpus r.cpus o.cpus,
            le_int-max_int r.gpus o.gpus (pos m.gpus),
          )
          (rearranged (lt_int r.memory (pos m.memory)) (lt_int o.memory (pos m.memory))
            (fl.ge (fl.of_ℕ m.cpus) r.cpus) (fl.ge (fl.of_ℕ m.cpus) o.cpus)
            (le_int r.gpus (pos m.gpus)) (le_int o.gpus (pos m.gpus)))

    meets-max_from :
        (r : Requirements F) (rs : List (Option (Requirements F))) (m : Machine)
        → meets (max_from fl r (filter_requirements fl rs)) m ≡ (meets r m && meets_all rs m)
    unfolding max_from filter_requirements
    meets-max_from r [] m = ground arith
    meets-max_from r (none ∷ rs) m = meets-max_from r rs m
    meets-max_from r (some o ∷ rs) m = elim (Bool-cases (needs_gpus fl (some o))) [
      | inl gpus ↦
          rw gpus
            (meets-max_from (combine fl r (some o)) rs m ∙ rw (meets-combine r o m) (ground arith))
      | inr no_gpus ↦ rw no_gpus (meets-max_from r rs m)
    ]

    meets-no_requirements :
        (m : Machine) → ltb 0 m.memory ≡ true → meets (no_requirements fl) m ≡ true
    meets-no_requirements m some_memory = rw (ordered.ge-zero m.cpus, some_memory) (ground arith)

    find-eq :
        (p q : Machine → Bool) (f : List Machine)
        → ((m : Machine) → ltb 0 m.memory ≡ true → p m ≡ q m)
        → All (λ m. ltb 0 m.memory ≡ true) f
        → find_machine p f ≡ find_machine q f
    find-eq p q [] same positive = refl
    find-eq p q (m ∷ f) same positive = rw (same m positive.0, find-eq p q f same positive.1) refl

    -- `guessMachineType` chooses the first machine of the family that meets the requirements of
    -- each service that needs GPUs, and has an error if there is none. Conditions: the requirements
    -- of the services are read, and `>=` of a machine's CPUs agrees with math.Max.
    pub guess_machine_type-find_machine :
        (services : List Service) (rs : List (Option (Requirements F)))
        → to_resource_requirements_slice fl services ≡ ok rs
        → guess_machine_type fl services ≡ found (find_machine (meets_all rs) gpu_family)
    unfolding guess_machine_type get_resource_requirements candidates
    guess_machine_type-find_machine services rs good =
        rw
          (
            good,
            find-filters required gpu_family,
            find-eq (meets required) (meets_all rs) gpu_family met positive,
          )
          (found-machine (find_machine (meets_all rs) gpu_family))
      where
        required : Requirements F
        required = max_from fl (no_requirements fl) (filter_requirements fl rs)

        met : (m : Machine) → ltb 0 m.memory ≡ true → meets required m ≡ meets_all rs m
        met m some_memory =
            meets-max_from (no_requirements fl) rs m ∙ rw (meets-no_requirements m some_memory) refl

        positive : All (λ m. ltb 0 m.memory ≡ true) gpu_family
        positive = (refl, (refl, (refl, (refl, (refl, (refl, (refl, tt)))))))
