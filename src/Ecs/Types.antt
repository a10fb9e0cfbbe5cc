-- ===== src/Ecs/Types.antt =====
-- The fields of compose-go's types that the code under ecs reads.
use compose_cli.Prelude.{String, Option, List}
use compose_cli.Go.Ints.{ℤ}

-- An entry of `GenericResources`: its `DiscreteResourceSpec`.
pub record GenericResource : Type 0 where
  pub kind : String
  pub value : ℤ

pub record Device : Type 0 where
  pub capabilities : List String
  pub count : ℤ

pub record Resource : Type 0 where
  pub nano_cpus : String
  pub memory_bytes : ℤ
  pub generic_resources : List GenericResource
  pub devices : List Device

-- `Deploy.Resources`
pub record Resources : Type 0 where
  pub limits : Option Resource
  pub reservations : Option Resource

pub record Service : Type 0 where
  pub name : String
  pub deploy : Option Resources
