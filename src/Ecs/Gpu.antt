-- ===== src/Ecs/Gpu.antt =====
-- ecs/gpu.go: the EC2 machine type for the services of a project that need GPUs.
--
-- The code counts CPUs in floating point. `Floats` is what it uses of such numbers: the value of a
-- literal, strconv.ParseFloat (`none` is its error), `>=` and math.Max.
pub mod Machines
pub mod Disagreement
mod Tests
use compose_cli.Prelude.{
  ℕ, ◌*◌, ◌^◌, String, Bool, true, false, not, ◌&&◌, ◌||◌, Option, none, some, List, [], ◌∷◌, ◌==◌,
  if◌then◌else◌,
}
use compose_cli.Prelude.Results.{Result, ok, err, ◌>>=◌}
use compose_cli.Go.Ints.{ℤ, pos, is_zero, lt_int, le_int, max_int}
use compose_cli.Ecs.Types.{GenericResource, Device, Resource, Resources, Service}

pub record Floats (F : Type 0) : Type 0 where
  pub of_ℕ : ℕ → F
  pub parse : String → Option F
  pub ge : F → F → Bool
  pub max : F → F → F

pub record Machine : Type 0 where
  pub id : String
  pub cpus : ℕ
  pub memory : ℕ
  pub gpus : ℕ

abbrev pub gi_b : ℕ
gi_b = 2 ^ 30

abbrev g4dn : String → ℕ → ℕ → ℕ → Machine
g4dn id cpus memory gpus = record { id = id; cpus = cpus; memory = memory * gi_b; gpus = gpus }

abbrev pub gpu_family : List Machine
gpu_family =
    g4dn "g4dn.xlarge" 4 16 1
    ∷ g4dn "g4dn.2xlarge" 8 32 1
    ∷ g4dn "g4dn.4xlarge" 16 64 1
    ∷ g4dn "g4dn.8xlarge" 32 128 1
    ∷ g4dn "g4dn.12xlarge" 48 192 4
    ∷ g4dn "g4dn.16xlarge" 64 256 1
    ∷ g4dn "g4dn.metal" 96 384 8
    ∷ []

pub record Requirements (F : Type 0) : Type 0 where
  pub memory : ℤ
  pub cpus : F
  pub gpus : ℤ

pub data GpuError : Type 0 where
  no_machine : GpuError
  invalid_cpus : String → GpuError

unfoldable pub filter_machines : List Machine → (Machine → Bool) → List Machine
filter_machines [] fn = []
filter_machines (m ∷ f) fn = let rest = filter_machines f fn in if fn m then m ∷ rest else rest

abbrev pub first_or_error : List Machine → Result GpuError Machine
first_or_error [] = err no_machine
first_or_error (m ∷ f) = ok m

-- The loop over the generic resources.
unfoldable pub generic_gpus : List GenericResource → ℤ
generic_gpus [] = pos 0
generic_gpus (r ∷ resources) = if r.kind == "gpus" then r.value else generic_gpus resources

unfoldable pub has_gpu : List String → Bool
has_gpu [] = false
has_gpu (c ∷ capabilities) = if c == "gpu" then true else has_gpu capabilities

-- The loop over the devices, from the GPUs that are required so far.
unfoldable pub device_gpus : ℤ → List Device → ℤ
unfolding has_gpu
device_gpus required [] = required
device_gpus required (r ∷ devices) =
    if has_gpu r.capabilities
    then (if le_int r.count (pos 0) then pos 1 else r.count)
    else device_gpus required devices

module _ {F : Type 0} (fl : Floats F) where
  abbrev pub requirements_with : Resource → F → Requirements F
  requirements_with reservations nanocpu = record {
    memory = reservations.memory_bytes;
    cpus = nanocpu;
    gpus = device_gpus (generic_gpus reservations.generic_resources) reservations.devices;
  }

  unfoldable pub requirements_of : Option Resource → Result GpuError (Option (Requirements F))
  requirements_of none = ok none
  requirements_of (some reservations) =
      if reservations.nano_cpus == ""
      then ok (some (requirements_with reservations (fl.of_ℕ 0)))
      else (elim (fl.parse reservations.nano_cpus) [
        | none ↦ err (invalid_cpus reservations.nano_cpus)
        | some v ↦ ok (some (requirements_with reservations v))
      ])

  unfoldable pub to_resource_requirements : Service → Result GpuError (Option (Requirements F))
  to_resource_requirements s = elim s.deploy [
    | none ↦ ok none
    | some deploy ↦ requirements_of deploy.reservations
  ]

  unfoldable pub to_resource_requirements_slice :
      List Service → Result GpuError (List (Option (Requirements F)))
  to_resource_requirements_slice [] = ok []
  to_resource_requirements_slice (s ∷ services) = do
    r ← to_resource_requirements s
    rest ← to_resource_requirements_slice services
    ok (r ∷ rest)

  -- `requirements != nil && requirements.gpus != 0`
  abbrev pub needs_gpus : Option (Requirements F) → Bool
  needs_gpus none = false
  needs_gpus (some r) = not (is_zero r.gpus)

  unfoldable pub filter_requirements :
      List (Option (Requirements F)) → List (Option (Requirements F))
  filter_requirements [] = []
  filter_requirements (r ∷ rs) =
      let rest = filter_requirements rs in if needs_gpus r then r ∷ rest else rest

  unfoldable pub combine : Requirements F → Option (Requirements F) → Requirements F
  combine r none = r
  combine r (some o) = record {
    memory = max_int r.memory o.memory;
    cpus = fl.max r.cpus o.cpus;
    gpus = max_int r.gpus o.gpus;
  }

  -- The loop of `max`.
  unfoldable pub max_from : Requirements F → List (Option (Requirements F)) → Requirements F
  max_from r [] = r
  max_from r (o ∷ os) = max_from (combine r o) os

  abbrev pub no_requirements : Requirements F
  no_requirements = record { memory = pos 0; cpus = fl.of_ℕ 0; gpus = pos 0 }

  unfoldable pub get_resource_requirements : List Service → Result GpuError (Requirements F)
  get_resource_requirements services = do
    rs ← to_resource_requirements_slice services
    ok (max_from no_requirements (filter_requirements rs))

  -- The machines that the three filters leave.
  unfoldable pub candidates : Requirements F → List Machine
  candidates r =
      filter_machines
        (filter_machines (filter_machines gpu_family (λ m. lt_int r.memory (pos m.memory)))
          (λ m. fl.ge (fl.of_ℕ m.cpus) r.cpus))
        (λ m. le_int r.gpus (pos m.gpus))

  unfoldable pub guess_machine_type : List Service → Result GpuError String
  guess_machine_type services = do
    requirements ← get_resource_requirements services
    m ← first_or_error (candidates requirements)
    ok m.id
