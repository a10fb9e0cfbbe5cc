-- ===== src/Compose/Mounts.antt =====
-- The mounts of a container in local/compose/create.go: `buildContainerMountOptions` and what it
-- calls, and the volumes that services take from others.
--
-- The paths of the operating system are a parameter. A range over a map or over the keys of a map
-- is over a list in the order that the run takes.
pub mod Precedence
pub mod Binds
mod Tests
use Prim.Native.String.{◌++◌ as text_append}
use compose_cli.Prelude.{
  String, Bool, true, false, not, ◌&&◌, ◌||◌, Option, none, some, List, [], ◌∷◌, ◌++◌, ◌==◌,
  if◌then◌else◌,
}
use compose_cli.Prelude.GoMap.{GoMap, lookup, insert, has, keys}
use compose_cli.Prelude.Results.{Result, ok, err, ◌>>=◌}
use compose_cli.Go.Ints.{ℤ}
use compose_cli.Compose.Types.{ServiceConfig, ServiceVolume, ServiceSecret, SecretConfig, Project}

-- `filepath.Abs`, where `none` is its error, `filepath.IsAbs` and `filepath.Join` of two.
pub record Paths : Type 0 where
  pub abs : String → Option String
  pub is_abs : String → Bool
  pub join : String → String → String

-- moby's `mount.Mount`.
pub record Mount : Type 0 where
  pub type : String
  pub source : String
  pub target : String
  pub read_only : Bool
  pub consistency : String
  pub bind : Option String
  pub no_copy : Option Bool
  pub tmpfs_size : Option ℤ

-- moby's `types.MountPoint`, a mount of the container that is replaced.
pub record MountPoint : Type 0 where
  pub type : String
  pub name : String
  pub source : String
  pub destination : String
  pub rw : Bool

pub data MountError : Type 0 where
  no_absolute_path : String → MountError
  external_secret : String → MountError

abbrev pub no_secret : SecretConfig
no_secret = record { name = ""; file = ""; external = false }

abbrev pub inherited_mount : MountPoint → Mount
inherited_mount m = record {
  type = m.type;
  source = if m.type == "volume" then m.name else m.source;
  target = m.destination;
  read_only = not m.rw;
  consistency = "";
  bind = none;
  no_copy = none;
  tmpfs_size = none;
}

-- The loop over the mounts of the replaced container, if there is one.
unfoldable pub inherit_mounts : List MountPoint → GoMap Mount → GoMap Mount
inherit_mounts [] mounts = mounts
inherit_mounts (m ∷ rest) mounts =
    inherit_mounts rest
      (if m.type == "tmpfs" then mounts else insert m.destination (inherited_mount m) mounts)

abbrev pub image_volume : String → ServiceVolume
image_volume target = record {
  type = "volume";
  source = "";
  target = target;
  read_only = false;
  consistency = "";
  bind = none;
  no_copy = none;
  tmpfs_size = none;
}

-- The loop that adds the secrets whose target is free.
unfoldable pub add_secrets : GoMap Mount → GoMap Mount → GoMap Mount
add_secrets [] mounts = mounts
add_secrets ((k, s) ∷ secrets) mounts =
    add_secrets secrets (if has s.target mounts then mounts else insert s.target s mounts)

-- A bind of the file of a secret.
abbrev pub secret_volume : SecretConfig → String → ServiceVolume
secret_volume secret target = record {
  type = "bind";
  source = secret.file;
  target = target;
  read_only = true;
  consistency = "";
  bind = none;
  no_copy = none;
  tmpfs_size = none;
}

-- A missing key of the project's secrets reads as an empty secret.
abbrev pub defined_secret : Project → String → SecretConfig
defined_secret p source = elim (lookup source p.secrets) [ none ↦ no_secret | some s ↦ s ]

module _ (paths : Paths) where
  -- The source, absolute for a bind.
  abbrev pub absolute_source : ServiceVolume → Result MountError String
  absolute_source volume =
      if (volume.type == "bind") && not (paths.is_abs volume.source)
      then (elim (paths.abs volume.source) [
        | none ↦ err (no_absolute_path volume.source)
        | some path ↦ ok path
      ])
      else ok volume.source

  -- The name of the project's volume, if the source is one.
  abbrev pub named_source : Project → ServiceVolume → String → String
  named_source project volume source =
      if (volume.type == "volume") && not (volume.source == "")
      then (elim (lookup volume.source project.volumes) [ none ↦ source | some name ↦ name ])
      else source

  unfoldable pub build_mount : Project → ServiceVolume → Result MountError Mount
  build_mount project volume = do
    source ← absolute_source volume
    ok (record {
      type = volume.type;
      source = named_source project volume source;
      target = volume.target;
      read_only = volume.read_only;
      consistency = volume.consistency;
      bind = volume.bind;
      no_copy = volume.no_copy;
      tmpfs_size = volume.tmpfs_size;
    })

  abbrev pub secret_target : ServiceSecret → String
  secret_target secret =
      if secret.target == ""
      then paths.join "/run/secrets" secret.source
      else if not (paths.is_abs secret.target)
      then paths.join "/run/secrets" secret.target
      else secret.target

  -- The loop of `buildContainerSecretMounts`.
  unfoldable pub build_secret_mounts :
      Project → List ServiceSecret → GoMap Mount → Result MountError (GoMap Mount)
  build_secret_mounts p [] mounts = ok mounts
  build_secret_mounts p (secret ∷ secrets) mounts =
      let rest = (do
        m ← build_mount p (secret_volume (defined_secret p secret.source) (secret_target secret))
        build_secret_mounts p secrets (insert (secret_target secret) m mounts)) in
      if (defined_secret p secret.source).external
      then err (external_secret (defined_secret p secret.source).name)
      else rest

  -- The loop over the keys of the image's volumes.
  unfoldable pub image_mounts :
      Project → List String → GoMap Mount → Result MountError (GoMap Mount)
  image_mounts p [] mounts = ok mounts
  image_mounts p (k ∷ ks) mounts = do
    m ← build_mount p (image_volume k)
    image_mounts p ks (insert k m mounts)

  unfoldable pub service_mounts :
      Project → List ServiceVolume → GoMap Mount → Result MountError (GoMap Mount)
  service_mounts p [] mounts = ok mounts
  service_mounts p (v ∷ volumes) mounts = do
    m ← build_mount p v
    service_mounts p volumes (insert m.target m mounts)

  -- The map whose values are the result, by their targets.
  unfoldable pub build_container_mount_options :
      Project → ServiceConfig → List String → List MountPoint → Result MountError (GoMap Mount)
  build_container_mount_options p s image_volumes inherited = do
    with_image ← image_mounts p image_volumes (inherit_mounts inherited [])
    with_volumes ← service_mounts p s.volumes with_image
    secrets ← build_secret_mounts p s.secrets []
    ok (add_secrets secrets with_volumes)

-- The loops of `buildContainerVolumes`: the targets of volumes, the binds, the other mounts.
unfoldable pub volume_targets : List Mount → GoMap (Unit {0}) → GoMap (Unit {0})
volume_targets [] targets = targets
volume_targets (m ∷ mounts) targets =
    volume_targets mounts (if m.type == "volume" then insert m.target tt targets else targets)

unfoldable pub binds_of : List Mount → List String
binds_of [] = []
binds_of (m ∷ mounts) =
    let rest = binds_of mounts in
    if (m.type == "volume") && not (m.source == "")
    then text_append m.source (text_append ":" (text_append m.target ":rw")) ∷ rest
    else rest

unfoldable pub other_mounts : List Mount → List Mount
other_mounts [] = []
other_mounts (m ∷ mounts) =
    let rest = other_mounts mounts in
    if (m.type == "bind") || (m.type == "tmpfs") then m ∷ rest else rest
