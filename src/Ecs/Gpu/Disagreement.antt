-- ===== src/Ecs/Gpu/Disagreement.antt =====
-- The GPUs of a device without a count, in ecs/gpu.go and in ecs/convert.go.
use compose_cli.Prelude.{
  String, ◌≡◌, refl, ap, ◌∙◌, ◌⊎◌, inl, inr, Bool-cases, not_both, true, false, Option, none, some,
  List, [], ◌∷◌, ◌++◌, All, arith, eq_iff, ◌==◌,
}
use compose_cli.Prelude.Results.{ok}
use compose_cli.Go.Ints.{ℤ, pos, le_int, lt_int}
use compose_cli.Ecs.Types.{Service, Resource, Device, GenericResource}
use compose_cli.Ecs.Limits
use compose_cli.Ecs.Limits.{require_ec2, is_gpu_alone}
use compose_cli.Ecs.Gpu.{
  Floats, Requirements, device_gpus, generic_gpus, has_gpu, requirements_of, requirements_with,
  to_resource_requirements,
}

-- Of the devices that a service reserves, the first with the capability gpu has that one alone, and a
-- count of zero or less, as where none is given; no generic resource is of the kind gpus.
pub record HasUncountedGpu (r : Resource) : Type 0 where
  pub before : List Device
  pub device : Device
  pub after : List Device
  pub devices : r.devices ≡ before ++ device ∷ after
  pub no_gpus : All (λ (d : Device). has_gpu d.capabilities ≡ false) before
  pub alone : device.capabilities ≡ "gpu" ∷ []
  pub uncounted : le_int device.count (pos 0) ≡ true
  pub no_generic : All (λ (g : GenericResource). (g.kind == "gpus") ≡ false) r.generic_resources

no_generic_gpus :
    (resources : List GenericResource)
    → All (λ (g : GenericResource). (g.kind == "gpus") ≡ false) resources
    → Limits.generic_gpus resources ≡ none
unfolding Limits.generic_gpus
no_generic_gpus [] all = refl
no_generic_gpus (g ∷ resources) (other, all) = rw other (no_generic_gpus resources all)

no_gpu_alone :
    (capabilities : List String) → has_gpu capabilities ≡ false → is_gpu_alone capabilities ≡ false
unfolding has_gpu
no_gpu_alone [] none_there = refl
no_gpu_alone (c ∷ []) none_there = ground (arith, none_there)
no_gpu_alone (c ∷ d ∷ capabilities) none_there = refl

first_gpu :
    (required : ℤ) (before after : List Device) (device : Device)
    → All (λ (d : Device). has_gpu d.capabilities ≡ false) before
    → device.capabilities ≡ "gpu" ∷ []
    → le_int device.count (pos 0) ≡ true
    → (device_gpus required (before ++ device ∷ after) ≡ pos 1)
      × (Limits.device_gpus (before ++ device ∷ after) ≡ some device.count)
unfolding device_gpus Limits.device_gpus has_gpu
first_gpu required [] after device all alone uncounted =
    (rw alone (rw uncounted refl), rw alone refl)
first_gpu required (d ∷ before) after device (other, all) alone uncounted =
    let (here, there) = first_gpu required before after device all alone uncounted in
    (rw other here, rw (no_gpu_alone d.capabilities other) there)

gpu_requirements_of-uncounted :
    (r : Resource) (gpu : HasUncountedGpu r)
    → Limits.gpu_requirements_of (some r) ≡ gpu.device.count
unfolding Limits.gpu_requirements_of
gpu_requirements_of-uncounted r gpu =
    rw (no_generic_gpus r.generic_resources gpu.no_generic, Limits.gpu_requirements_of)
      (rw (gpu.devices, Limits.gpu_requirements_of)
        (rw
          (
            (first_gpu (pos 0) gpu.before gpu.after gpu.device gpu.no_gpus gpu.alone
                gpu.uncounted).1,
            Limits.gpu_requirements_of,
          )
          refl))

not_positive : (n : ℤ) → le_int n (pos 0) ≡ true → lt_int (pos 0) n ≡ false
not_positive n h = ground (arith, h)

-- A service that reserves such a device (see `HasUncountedGpu`), with CPUs that are read where they are
-- given: `guessMachineType` counts one GPU that it needs, but `requireEC2` says that it needs no
-- machine with GPUs.
pub require_ec2-to_resource_requirements :
    {F : Type 0} (fl : Floats F) (name : String) (limits : Option Resource) (r : Resource)
    → HasUncountedGpu r
    → (r.nano_cpus ≡ "") ⊎ ((v : F) × (fl.parse r.nano_cpus ≡ some v))
    → (let s : Service = record {
      name = name;
      deploy = some (record { limits = limits; reservations = some r });
    } in
        (require_ec2 s ≡ false)
        × ((q : Requirements F) × (to_resource_requirements fl s ≡ ok (some q)) × (q.gpus ≡ pos 1)))
unfolding require_ec2 Limits.gpu_requirements Limits.gpu_requirements_of to_resource_requirements
    requirements_of
require_ec2-to_resource_requirements {F} fl name limits r gpu read = (
  ap (lt_int (pos 0)) (gpu_requirements_of-uncounted r gpu)
      ∙ not_positive gpu.device.count gpu.uncounted,
  elim (Bool-cases (r.nano_cpus == "")) [
    | inl empty ↦ (requirements_with fl r (fl.of_ℕ 0), rw empty refl, one_gpu)
    | inr given ↦ elim read [
      | inl empty ↦ absurd (not_both ((eq_iff r.nano_cpus "").1 empty) given)
      | inr (v, parsed) ↦ (requirements_with fl r v, rw given (rw parsed refl), one_gpu)
    ]
  ],
)
  where
    one_gpu : device_gpus (generic_gpus r.generic_resources) r.devices ≡ pos 1
    one_gpu =
        ap (device_gpus (generic_gpus r.generic_resources)) gpu.devices
        ∙ (first_gpu (generic_gpus r.generic_resources) gpu.before gpu.after gpu.device gpu.no_gpus
            gpu.alone gpu.uncounted).0
