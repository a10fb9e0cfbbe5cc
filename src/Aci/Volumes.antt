-- ===== src/Aci/Volumes.antt =====
-- aci/convert/volume.go: the volumes of a project as Azure file shares, the mounts of a service, and
-- the volumes that `run` is given as texts.
--
-- strings.ToLower and the account keys that Azure has are parameters. A range over a map takes the
-- order as the order of the list.
pub mod Specified
pub mod Shares
pub mod Mounted
mod Tests
use Prim.Native.String.{◌++◌ as text_append}
use compose_cli.Prelude.{
  ℕ, suc, String, Bool, true, false, ◌||◌, not, ◌&&◌, Option, none, some, List, [], ◌∷◌, ◌==◌,
  if◌then◌else◌,
}
use compose_cli.Prelude.GoMap.{GoMap, lookup, insert}
use compose_cli.Prelude.Results.{Result, ok, err, ◌>>=◌}
use compose_cli.Go.Strconv.{itoa, parse_bool}
use compose_cli.Go.Strings.{split}

abbrev pub azure_file_driver_name : String
azure_file_driver_name = "azure_file"

abbrev pub share_name_key : String
share_name_key = "share_name"

abbrev pub account_name_key : String
account_name_key = "storage_account_name"

abbrev pub volume_read_only : String
volume_read_only = "read_only"

-- compose-go's `VolumeConfig`.
pub record VolumeConfig : Type 0 where
  pub name : String
  pub driver : String
  pub driver_opts : GoMap String

-- compose-go's `ServiceVolumeConfig`.
pub record ServiceVolume : Type 0 where
  pub type : String
  pub source : String
  pub target : String
  pub read_only : Bool

-- A volume of the Azure SDK that is a file share.
pub record AciVolume : Type 0 where
  pub name : String
  pub share_name : String
  pub storage_account_name : String
  pub storage_account_key : String
  pub read_only : Bool

-- A mount of the Azure SDK, whose ReadOnly is left nil.
pub record VolumeMount : Type 0 where
  pub name : String
  pub mount_path : String

pub data VolumeError : Type 0 where
  no_share_name : VolumeError
  no_account_name : VolumeError
  invalid_mode : (read_only : String) → VolumeError
  no_account_key : (account : String) → VolumeError
  host_path : (source : String) → VolumeError
  no_account_in : (candidate : String) → VolumeError
  no_fileshare_in : (candidate : String) → VolumeError
  invalid_mode_in : (candidate permissions : String) → VolumeError
  invalid_format_of : (candidate : String) → VolumeError

abbrev pub required : VolumeError → Option String → Result VolumeError String
required missing none = err missing
required missing (some t) = ok t

abbrev pub read_only_of : Option String → Result VolumeError Bool
read_only_of none = ok false
read_only_of (some t) = elim (parse_bool t) [ none ↦ err (invalid_mode t) | some ro ↦ ok ro ]

-- The body of the loop over the volumes. `account_keys` has the key of each account.
unfoldable pub to_aci_volume :
    (String → Option String) → String → VolumeConfig → Result VolumeError AciVolume
to_aci_volume account_keys volume_name v = do
  share ← required no_share_name (lookup share_name_key v.driver_opts)
  account ← required no_account_name (lookup account_name_key v.driver_opts)
  ro ← read_only_of (lookup volume_read_only v.driver_opts)
  key ← required (no_account_key account) (account_keys account)
  ok (record {
    name = volume_name;
    share_name = share;
    storage_account_name = account;
    storage_account_key = key;
    read_only = ro;
  })

unfoldable pub get_aci_file_volumes :
    (String → Option String) → GoMap VolumeConfig → Result VolumeError (List AciVolume)
get_aci_file_volumes account_keys [] = ok []
get_aci_file_volumes account_keys ((volume_name, v) ∷ volumes) =
    let rest = get_aci_file_volumes account_keys volumes in
    if v.driver == azure_file_driver_name
    then (do first ← to_aci_volume account_keys volume_name v; others ← rest; ok (first ∷ others))
    else rest

unfoldable pub get_aci_file_volume_mounts :
    List ServiceVolume → Result VolumeError (List VolumeMount)
get_aci_file_volume_mounts [] = ok []
get_aci_file_volume_mounts (sv ∷ volumes) =
    let rest = get_aci_file_volume_mounts volumes in
    if sv.type == "bind"
    then err (host_path sv.source)
    else (do others ← rest; ok (record { name = sv.source; mount_path = sv.target } ∷ others))

-- `volumeInput`
pub record VolumeInput : Type 0 where
  pub name : String
  pub storage_account : String
  pub fileshare : String
  pub target : String
  pub readonly : Bool

-- The account and the share of the source.
abbrev pub parse_source : String → List String → Result VolumeError (String × String)
parse_source candidate [] = err (no_account_in candidate)
parse_source candidate (account ∷ []) = err (no_account_in candidate)
parse_source candidate (account ∷ share ∷ []) =
    if account == ""
    then err (no_account_in candidate)
    else if share == ""
    then err (no_fileshare_in candidate)
    else ok (account, share)
parse_source candidate (account ∷ share ∷ more ∷ tokens) = err (no_account_in candidate)

module _ (to_lower : String → String) where
  -- The target and whether it is read-only, by the number of the tokens after the source.
  abbrev pub parse_target : String → String → List String → Result VolumeError (String × Bool)
  parse_target candidate share [] = ok (text_append "/run/volumes/" share, false)
  parse_target candidate share (target ∷ []) = ok (target, false)
  parse_target candidate share (target ∷ mode ∷ []) =
      let permissions = to_lower mode in
      if not (permissions == "ro") && not (permissions == "rw")
      then err (invalid_mode_in candidate permissions)
      else ok (target, permissions == "ro")
  parse_target candidate share (target ∷ mode ∷ more ∷ tokens) = err (invalid_format_of candidate)

  -- There always is a first token.
  abbrev pub parse_tokens : String → String → List String → Result VolumeError VolumeInput
  parse_tokens volume_name candidate [] = err (no_account_in candidate)
  parse_tokens volume_name candidate (source ∷ tokens) = do
    parts ← parse_source candidate (split "/" source)
    rest ← parse_target candidate parts.1 tokens
    ok (record {
      name = volume_name;
      storage_account = parts.0;
      fileshare = parts.1;
      target = rest.0;
      readonly = rest.1;
    })

  unfoldable pub parse : String → String → Result VolumeError VolumeInput
  parse volume_name candidate = parse_tokens volume_name candidate (split ":" candidate)

abbrev pub volume_name_of : ℕ → String
volume_name_of i = text_append "volume-" (itoa i)

abbrev pub format_bool : Bool → String
format_bool true = "true"
format_bool false = "false"

abbrev pub config_of : VolumeInput → VolumeConfig
config_of vi = record {
  name = vi.name;
  driver = azure_file_driver_name;
  driver_opts =
      insert volume_read_only (format_bool vi.readonly)
        (insert share_name_key vi.fileshare (insert account_name_key vi.storage_account []));
}

abbrev pub service_volume_of : VolumeInput → ServiceVolume
service_volume_of vi = record {
  type = azure_file_driver_name;
  source = vi.name;
  target = vi.target;
  read_only = vi.readonly;
}

-- The loop from the index `i`.
unfoldable pub run_volumes_from :
    (String → String)
    → ℕ
    → List String
    → GoMap VolumeConfig
    → Result VolumeError (GoMap VolumeConfig × List ServiceVolume)
run_volumes_from to_lower i [] project_volumes = ok (project_volumes, [])
run_volumes_from to_lower i (v ∷ volumes) project_volumes = do
  vi ← parse to_lower (volume_name_of i) v
  rest ← run_volumes_from to_lower (suc i) volumes (insert vi.name (config_of vi) project_volumes)
  ok (rest.0, service_volume_of vi ∷ rest.1)

unfoldable pub get_run_volumes :
    (String → String) → List String → Result VolumeError (GoMap VolumeConfig × List ServiceVolume)
get_run_volumes to_lower volumes = run_volumes_from to_lower 0 volumes []
