-- ===== src/Ecs/Limits.antt =====
-- `toLimits` of ecs/convert.go and what it calls: the CPU and the memory of a task.
--
-- ParseCPUs of the docker command line is a parameter; `none` is its error.
pub mod Fargate
mod Tests
use compose_cli.Prelude.{
  ℕ, ◌*◌, ◌^◌, String, Bool, true, false, ◌&&◌, Option, none, some, List, [], ◌∷◌, map, ◌++◌, ◌==◌,
  if◌then◌else◌,
}
use compose_cli.Prelude.Results.{Result, ok, err, ◌>>=◌}
use compose_cli.Go.Ints.{ℤ, pos, is_zero, lt_int, le_int, div_int}
use compose_cli.Go.Strconv.{itoa, itoa_int}
use compose_cli.Ecs.Types.{GenericResource, Device, Resource, Resources, Service}

pub data LimitError : Type 0 where
  invalid_cpus : String → LimitError
  unsupported : LimitError

abbrev pub mi_b : ℕ
mi_b = 1024 * 1024

-- The amount of the first generic resource of kind "gpus".
unfoldable pub generic_gpus : List GenericResource → Option ℤ
generic_gpus [] = none
generic_gpus (r ∷ resources) = if r.kind == "gpus" then some r.value else generic_gpus resources

abbrev pub is_gpu_alone : List String → Bool
is_gpu_alone (c ∷ []) = c == "gpu"
is_gpu_alone capabilities = false

-- The count of the first device whose only capability is "gpu".
unfoldable pub device_gpus : List Device → Option ℤ
device_gpus [] = none
device_gpus (d ∷ devices) =
    if is_gpu_alone d.capabilities then some d.count else device_gpus devices

unfoldable pub gpu_requirements_of : Option Resource → ℤ
gpu_requirements_of none = pos 0
gpu_requirements_of (some reservations) = elim (generic_gpus reservations.generic_resources) [
  | some n ↦ n
  | none ↦ elim (device_gpus reservations.devices) [ some n ↦ n | none ↦ pos 0 ]
]

unfoldable pub gpu_requirements : Service → ℤ
gpu_requirements s = elim s.deploy [
  | none ↦ pos 0
  | some deploy ↦ gpu_requirements_of deploy.reservations
]

unfoldable pub require_ec2 : Service → Bool
require_ec2 s = lt_int (pos 0) (gpu_requirements s)

-- The limits, or else the reservations.
abbrev pub limits_of : Resources → Option Resource
limits_of deploy = elim deploy.limits [ some limits ↦ some limits | none ↦ deploy.reservations ]

module _ (parse_cpus : String → Option ℤ) where
  -- The memory in bytes, and the CPU in thousandths.
  unfoldable pub configured_of : Option Resource → Result LimitError (ℤ × ℤ)
  configured_of none = ok (pos 0, pos 0)
  configured_of (some limits) =
      if limits.nano_cpus == ""
      then ok (limits.memory_bytes, pos 0)
      else (elim (parse_cpus limits.nano_cpus) [
        | none ↦ err (invalid_cpus limits.nano_cpus)
        | some v ↦ ok (limits.memory_bytes, div_int v 1_000_000)
      ])

  unfoldable pub get_configured_limits : Service → Result LimitError (ℤ × ℤ)
  get_configured_limits s = elim s.deploy [
    | none ↦ ok (pos 0, pos 0)
    | some deploy ↦ configured_of (limits_of deploy)
  ]

-- What a task on Fargate may have: CPU units, and MiB of memory, the smaller first.
abbrev pub fargate_cpu_to_mem : List (ℕ × List ℕ)
fargate_cpu_to_mem =
    (256, 512 ∷ 1024 ∷ 2048 ∷ [])
    ∷ (512, 1024 ∷ 2048 ∷ 3072 ∷ 4096 ∷ [])
    ∷ (1024, 2048 ∷ 3072 ∷ 4096 ∷ 5120 ∷ 6144 ∷ 7168 ∷ 8192 ∷ [])
    ∷ (
      2048,
      4096 ∷ 5120 ∷ 6144 ∷ 7168 ∷ 8192 ∷ 9216 ∷ 10240 ∷ 11264 ∷ 12288 ∷ 13312 ∷ 14336 ∷ 15360
          ∷ 16384 ∷ [],
    )
    ∷ (
      4096,
      8192 ∷ 9216 ∷ 10240 ∷ 11264 ∷ 12288 ∷ 13312 ∷ 14336 ∷ 15360 ∷ 16384 ∷ 17408 ∷ 18432 ∷ 19456
          ∷ 20480 ∷ 21504 ∷ 22528 ∷ 23552 ∷ 24576 ∷ 25600 ∷ 26624 ∷ 27648 ∷ 28672 ∷ 29696 ∷ 30720
          ∷ [],
    )
    ∷ []

-- The inner loop: the first memory that is enough.
unfoldable pub first_memory : ℤ → List ℕ → Option ℕ
first_memory mem [] = none
first_memory mem (m ∷ options) =
    if le_int mem (pos (m * mi_b)) then some m else first_memory mem options

-- The outer loop, over the CPU values in ascending order.
unfoldable pub first_option : ℤ → ℤ → List (ℕ × List ℕ) → Option (ℕ × ℕ)
first_option mem cpu [] = none
first_option mem cpu ((fargate_cpu, options) ∷ rows) =
    let rest = first_option mem cpu rows in
    if le_int cpu (pos fargate_cpu)
    then (elim (first_memory mem options) [ some m ↦ some (fargate_cpu, m) | none ↦ rest ])
    else rest

abbrev pub text_if_positive : ℤ → ℤ → String
text_if_positive value shown = if lt_int (pos 0) value then itoa_int shown else ""

-- The CPU and the memory, as texts.
unfoldable pub limits_for : Bool → ℤ → ℤ → Result LimitError (String × String)
limits_for on_ec2 mem cpu =
    if on_ec2
    then ok (text_if_positive cpu cpu, text_if_positive mem (div_int mem mi_b))
    else if is_zero mem && is_zero cpu
    then ok ("256", "512")
    else (elim (first_option mem cpu fargate_cpu_to_mem) [
      | none ↦ err unsupported
      | some (c, m) ↦ ok (itoa c, itoa m)
    ])

unfoldable pub to_limits : (String → Option ℤ) → Service → Result LimitError (String × String)
to_limits parse_cpus s = do
  configured ← get_configured_limits parse_cpus s
  limits_for (require_ec2 s) configured.0 configured.1
