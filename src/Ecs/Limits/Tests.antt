-- ===== src/Ecs/Limits/Tests.antt =====
-- A service on Fargate and one with a GPU, and the theorem about `toLimits` at the first.
use compose_cli.Prelude.{
  ℕ, String, ◌≡◌, refl, false, Option, none, some, [], ◌∷◌, get_elem?, ◌⊎◌, ◌==◌, if◌then◌else◌,
}
use compose_cli.Prelude.Results.{ok, err}
use compose_cli.Go.Ints.{ℤ, pos}
use compose_cli.Go.Strconv.{itoa, itoa_int}
use compose_cli.Ecs.Types.{Service}
use compose_cli.Ecs.Limits.{
  unsupported, fargate_cpu_to_mem, generic_gpus, gpu_requirements_of, gpu_requirements, require_ec2,
  configured_of, get_configured_limits, first_memory, first_option, limits_for, to_limits,
}
use compose_cli.Ecs.Limits.Fargate.{fits, offers, IsFirstFit, to_limits_decides}

-- Billionths of a CPU.
abbrev nano : String → Option ℤ
nano t = if t == "0.5" then some (pos 500_000_000) else none

abbrev limited : ℕ → Service
limited bytes = record {
  name = "web";
  deploy = some (record {
    limits = some (record {
      nano_cpus = "0.5";
      memory_bytes = pos bytes;
      generic_resources = [];
      devices = [];
    });
    reservations = none;
  });
}

on_gpu : Service
on_gpu = record {
  name = "train";
  deploy = some (record {
    limits = none;
    reservations = some (record {
      nano_cpus = "";
      memory_bytes = pos 2_097_152;
      generic_resources = record { kind = "gpus"; value = pos 1 } ∷ [];
      devices = [];
    });
  });
}

to_limits-half : to_limits nano (limited 2_000_000_000) ≡ ok ("512", "2048")
unfolding to_limits get_configured_limits configured_of require_ec2 gpu_requirements
    gpu_requirements_of limits_for first_option first_memory itoa
to_limits-half = refl

to_limits-on_gpu : to_limits nano on_gpu ≡ ok ("", "2")
unfolding to_limits get_configured_limits configured_of require_ec2 gpu_requirements
    gpu_requirements_of generic_gpus limits_for itoa itoa_int on_gpu
to_limits-on_gpu = refl

to_limits_decides_example :
    ((o : ℕ × ℕ) × (to_limits nano (limited 2_000_000_000) ≡ ok (itoa o.0, itoa o.1))
      × IsFirstFit (pos 2_000_000_000) (pos 500) (offers fargate_cpu_to_mem) o)
    ⊎ ((to_limits nano (limited 2_000_000_000) ≡ err unsupported)
        × ((j : ℕ) (q : ℕ × ℕ)
            → get_elem? (offers fargate_cpu_to_mem) j ≡ some q
            → fits (pos 2_000_000_000) (pos 500) q ≡ false))
unfolding get_configured_limits configured_of require_ec2 gpu_requirements gpu_requirements_of
to_limits_decides_example =
    to_limits_decides nano (limited 2_000_000_000) (pos 2_000_000_000) (pos 500) refl refl
