-- ===== src/Compose/Types.antt =====
-- The fields of compose-go's and moby's types that local/compose reads, and the label names of
-- local/compose/labels.go. Text is ASCII.
use compose_cli.Prelude.{ℕ, String, Bool, Option, none, some, List}
use compose_cli.Prelude.GoMap.{GoMap, lookup}
use compose_cli.Go.Ints.{ℤ}

abbrev pub container_number_label : String
container_number_label = "com.docker.compose.container-number"

abbrev pub oneoff_label : String
oneoff_label = "com.docker.compose.oneoff"

abbrev pub working_dir_label : String
working_dir_label = "com.docker.compose.project.working_dir"

abbrev pub config_files_label : String
config_files_label = "com.docker.compose.project.config_files"

abbrev pub version_label : String
version_label = "com.docker.compose.version"

abbrev pub compose_version : String
compose_version = "1.0-alpha"

abbrev pub project_label : String
project_label = "com.docker.compose.project"

abbrev pub service_label : String
service_label = "com.docker.compose.service"

abbrev pub config_hash_label : String
config_hash_label = "com.docker.compose.config-hash"

-- moby's `types.Container`
pub record Container : Type 0 where
  pub id : String
  pub names : List String
  pub labels : GoMap String
  pub state : String

-- A map read of Go: the empty text for a missing key.
abbrev pub text_or_empty : Option String → String
text_or_empty none = ""
text_or_empty (some t) = t

unfoldable pub label : Container → String → String
label c key = text_or_empty (lookup key c.labels)

-- compose-go's `ServicePortConfig`.
pub record PortConfig : Type 0 where
  pub target : ℕ
  pub published : ℕ
  pub protocol : String

-- compose-go's `ServiceVolumeConfig`, with the propagation of a bind, NoCopy of a volume and the
-- size of a tmpfs, where there are any.
pub record ServiceVolume : Type 0 where
  pub type : String
  pub source : String
  pub target : String
  pub read_only : Bool
  pub consistency : String
  pub bind : Option String
  pub no_copy : Option Bool
  pub tmpfs_size : Option ℤ

pub record ServiceSecret : Type 0 where
  pub source : String
  pub target : String

-- compose-go's `ServiceConfig`. `replicas` is `Deploy.Replicas`, where both are set; `networks` are
-- the keys of `Networks` with their aliases, where there are any.
pub record ServiceConfig : Type 0 where
  pub name : String
  pub container_name : String
  pub scale : ℤ
  pub replicas : Option ℕ
  pub extensions : GoMap String
  pub labels : GoMap String
  pub image : String
  pub network_mode : String
  pub networks : GoMap (Option (List String))
  pub ports : List PortConfig
  pub volumes : List ServiceVolume
  pub volumes_from : List String
  pub secrets : List ServiceSecret

-- compose-go's `SecretConfig`.
pub record SecretConfig : Type 0 where
  pub name : String
  pub file : String
  pub external : Bool

-- Networks and volumes by their keys, with their names.
pub record Project : Type 0 where
  pub name : String
  pub services : List ServiceConfig
  pub networks : GoMap String
  pub volumes : GoMap String
  pub secrets : GoMap SecretConfig
  pub working_dir : String
  pub compose_files : List String
