-- ===== src/Ecs/Gpu/Tests.antt =====
-- Two services with GPUs, and the theorems about ecs/gpu.go at them.
use compose_cli.Prelude.{
  inl, ℕ, ◌≡◌, refl, false, Option, none, some, List, [], ◌∷◌, ◌==◌, if◌then◌else◌, ltb, leb, arith,
}
use compose_cli.Prelude.Results.{ok}
use compose_cli.Go.Ints.{pos}
use compose_cli.Ecs.Types.{Service, Resource, Device}
use compose_cli.Ecs.Limits.{require_ec2}
use compose_cli.Ecs.Gpu.{
  has_gpu, Floats, gpu_family, Requirements, filter_machines, generic_gpus, device_gpus,
  requirements_of, to_resource_requirements, to_resource_requirements_slice, filter_requirements,
  combine, max_from, get_resource_requirements, candidates, guess_machine_type,
}
use compose_cli.Ecs.Gpu.Machines.{
  AreOrdered, find_machine, meets_all, found, guess_machine_type-find_machine,
}
use compose_cli.Ecs.Gpu.Disagreement.{HasUncountedGpu, require_ec2-to_resource_requirements}

-- Whole numbers of CPUs.
abbrev whole : Floats ℕ
whole = record {
  of_ℕ = λ n. n;
  parse = λ t. if t == "40" then some 40 else none;
  ge = λ a b. leb b a;
  max = λ a b. if ltb b a then a else b;
}

whole-AreOrdered : AreOrdered whole
whole-AreOrdered = record { ge-max = λ n a b. ground arith; ge-zero = λ n. ground arith }

abbrev training : Service
training = record {
  name = "train";
  deploy = some (record {
    limits = none;
    reservations = some (record {
      nano_cpus = "40";
      memory_bytes = pos 1_000_000;
      generic_resources = record { kind = "gpus"; value = pos 2 } ∷ [];
      devices = [];
    });
  });
}

-- A device with a GPU of which no count is given, after one without GPUs.
abbrev some_gpus : Device
some_gpus = record { capabilities = "gpu" ∷ []; count = pos 0 }

abbrev some_disk : Device
some_disk = record { capabilities = "disk" ∷ []; count = pos 1 }

abbrev uncounted : Resource
uncounted = record {
  nano_cpus = "";
  memory_bytes = pos 0;
  generic_resources = [];
  devices = some_disk ∷ some_gpus ∷ [];
}

uncounted-HasUncountedGpu : HasUncountedGpu uncounted
unfolding has_gpu
uncounted-HasUncountedGpu = record {
  before = some_disk ∷ [];
  device = some_gpus;
  after = [];
  devices = refl;
  no_gpus = (refl, tt);
  alone = refl;
  uncounted = refl;
  no_generic = tt;
}

abbrev inferring : Service
inferring = record {
  name = "infer";
  deploy = some (record { limits = none; reservations = some uncounted });
}

abbrev both : List Service
both = training ∷ inferring ∷ []

abbrev read : List (Option (Requirements ℕ))
read =
    some (record { memory = pos 1_000_000; cpus = 40; gpus = pos 2 })
    ∷ some (record { memory = pos 0; cpus = 0; gpus = pos 1 })
    ∷ []

guess_machine_type-both : guess_machine_type whole both ≡ ok "g4dn.12xlarge"
unfolding guess_machine_type get_resource_requirements to_resource_requirements_slice
    to_resource_requirements requirements_of generic_gpus device_gpus candidates filter_machines
    max_from combine filter_requirements
guess_machine_type-both = refl

guess_machine_type-find_machine_example :
    guess_machine_type whole both ≡ found (find_machine (meets_all whole read) gpu_family)
unfolding to_resource_requirements_slice to_resource_requirements requirements_of generic_gpus
    device_gpus
guess_machine_type-find_machine_example =
    guess_machine_type-find_machine whole whole-AreOrdered both read refl

require_ec2-to_resource_requirements_example :
    (require_ec2 inferring ≡ false)
    × ((q : Requirements ℕ) × (to_resource_requirements whole inferring ≡ ok (some q))
        × (q.gpus ≡ pos 1))
require_ec2-to_resource_requirements_example =
    require_ec2-to_resource_requirements whole "infer" none uncounted uncounted-HasUncountedGpu
      (inl refl)
