-- ===== src/Compose/Mounts/Tests.antt =====
-- A service with a volume, a bind and two secrets, and the theorems about the mounts of
-- local/compose/create.go at it.
use Prim.Native.String.{◌++◌ as ◌⊕◌}
use compose_cli.Prelude.{
  String, ◌≡◌, refl, Bool, true, false, none, some, List, [], ◌∷◌, ◌==◌, if◌then◌else◌,
}
use compose_cli.Prelude.GoMap.{GoMap, lookup, insert, has}
use compose_cli.Compose.Types.{ServiceConfig, ServiceVolume, Project}
use compose_cli.Compose.Creation.Tests.{web, app}
use compose_cli.Compose.Mounts.{
  Paths, Mount, MountPoint, build_mount, build_secret_mounts, inherit_mounts, image_mounts,
  service_mounts, add_secrets, build_container_mount_options, volume_targets, binds_of,
  other_mounts,
}
use compose_cli.Prelude.{◌≢◌, All}
use compose_cli.Go.Strings.{has_suffix}
use compose_cli.Compose.Util.{contains}
use compose_cli.Compose.Mounts.Binds.{IsMounted, writable_bind, binds_of-writable}
use compose_cli.Compose.Mounts.Precedence.{or_else, build_container_mount_options-or_else}

program : Unit {0}
unfolding lookup insert has build_mount build_secret_mounts inherit_mounts image_mounts
    service_mounts add_secrets build_container_mount_options volume_targets binds_of other_mounts
program = tt

abbrev posix : Paths
posix = record {
  abs = λ p. some ("/work/" ⊕ p);
  is_abs = λ p. if p == "/run/secrets/key" then true else false;
  join = λ a b. a ⊕ ("/" ⊕ b);
}

abbrev mount_of : String → String → String → Bool → Mount
mount_of type source target read_only = record {
  type = type;
  source = source;
  target = target;
  read_only = read_only;
  consistency = "";
  bind = none;
  no_copy = none;
  tmpfs_size = none;
}

abbrev volume_of : String → String → String → Bool → ServiceVolume
volume_of type source target read_only = record {
  type = type;
  source = source;
  target = target;
  read_only = read_only;
  consistency = "";
  bind = none;
  no_copy = none;
  tmpfs_size = none;
}

abbrev project : Project
project = record app {
  volumes = ("data", "app_data") ∷ [];
  secrets = ("key", record { name = "key"; file = "key.txt"; external = false }) ∷ [];
}

abbrev service : ServiceConfig
service = record web {
  volumes = volume_of "volume" "data" "/data" true ∷ volume_of "bind" "conf" "/etc" false ∷ [];
  secrets = record { source = "key"; target = "" } ∷ [];
}

-- The volume that the replaced container had at /data.
abbrev inherited : List MountPoint
inherited =
    record { type = "volume"; name = "old"; source = "/var"; destination = "/data"; rw = true }
    ∷ record { type = "tmpfs"; name = ""; source = ""; destination = "/tmp"; rw = true }
    ∷ []

abbrev own_mounts : GoMap Mount
own_mounts =
    ("/data", mount_of "volume" "app_data" "/data" true)
    ∷ ("/etc", mount_of "bind" "/work/conf" "/etc" false)
    ∷ []

abbrev secret_mounts : GoMap Mount
secret_mounts = ("/run/secrets/key", mount_of "bind" "/work/key.txt" "/run/secrets/key" true) ∷ []

abbrev image : GoMap Mount
image = ("/cache", mount_of "volume" "" "/cache" false) ∷ []

abbrev all_mounts : GoMap Mount
all_mounts =
    ("/data", mount_of "volume" "app_data" "/data" true)
    ∷ ("/cache", mount_of "volume" "" "/cache" false)
    ∷ ("/etc", mount_of "bind" "/work/conf" "/etc" false)
    ∷ secret_mounts

build_container_mount_options-or_else_example :
    lookup "/data" all_mounts
    ≡ or_else (lookup "/data" own_mounts) (
        or_else
          (lookup "/data" image)
          (or_else (lookup "/data" (inherit_mounts inherited [])) (lookup "/data" secret_mounts)))
unfolding program
build_container_mount_options-or_else_example =
    build_container_mount_options-or_else posix project "/data" service ("/cache" ∷ []) inherited
      all_mounts own_mounts image secret_mounts refl refl refl refl

binds_of_read_only_volume :
    binds_of (mount_of "volume" "app_data" "/data" true ∷ []) ≡ "app_data:/data:rw" ∷ []
unfolding program
binds_of_read_only_volume = refl

split_mounts :
    (volume_targets (mount_of "volume" "" "/cache" false ∷ []) [] ≡ ("/cache", tt) ∷ [])
    × (other_mounts (mount_of "bind" "/a" "/b" false ∷ mount_of "volume" "" "/c" false ∷ [])
        ≡ mount_of "bind" "/a" "/b" false ∷ [])
unfolding program
split_mounts = (refl, refl)

binds_of-writable_example :
    ((m : Mount)
      → IsMounted m (mount_of "volume" "d" "/d" true ∷ [])
      → m.type ≡ "volume"
      → m.source ≢ ""
      → contains (binds_of (mount_of "volume" "d" "/d" true ∷ [])) (writable_bind m.source m.target)
        ≡ true)
    × All (λ bind. has_suffix bind ":rw" ≡ true) (binds_of (mount_of "volume" "d" "/d" true ∷ []))
binds_of-writable_example = binds_of-writable (mount_of "volume" "d" "/d" true ∷ [])
