-- ===== src/Aci/Volumes/Tests.antt =====
-- Two volumes as `run` is given them, and the theorems about aci/convert/volume.go at them.
use compose_cli.Prelude.{
  ℕ, String, ◌≡◌, ◌↔◌, refl, false, true, some, List, [], ◌∷◌, get_elem?, ◌==◌, if◌then◌else◌,
}
use compose_cli.Prelude.GoMap.{GoMap, lookup, insert}
use compose_cli.Prelude.Results.{ok, err}
use compose_cli.Go.Strings.{split}
use compose_cli.Go.Strconv.{itoa}
use compose_cli.Aci.Volumes.{
  VolumeConfig, ServiceVolume, AciVolume, VolumeMount, VolumeInput, invalid_mode_in,
  no_fileshare_in, get_aci_file_volumes, get_aci_file_volume_mounts, parse, config_of,
  service_volume_of, run_volumes_from, get_run_volumes,
}
use compose_cli.Aci.Volumes.Specified.{IsSpecified, parse-IsSpecified}
use compose_cli.Aci.Volumes.Shares.{volume_named, aci_volume_of, mount_of}
use compose_cli.Aci.Volumes.Mounted.{get_run_volumes-mounted}

abbrev lower : String → String
lower t = if t == "RO" then "ro" else t

abbrev candidates : List String
candidates = "acct/logs:/var/log:RO" ∷ "acct/data" ∷ []

abbrev logs : VolumeInput
logs = record {
  name = "volume-0";
  storage_account = "acct";
  fileshare = "logs";
  target = "/var/log";
  readonly = true;
}

abbrev data_input : VolumeInput
data_input = record {
  name = "volume-1";
  storage_account = "acct";
  fileshare = "data";
  target = "/run/volumes/data";
  readonly = false;
}

abbrev taken : GoMap VolumeConfig × List ServiceVolume
taken = (
  (("volume-0", config_of logs) ∷ ("volume-1", config_of data_input) ∷ []),
  service_volume_of logs ∷ service_volume_of data_input ∷ [],
)

parse_logs : parse lower "volume-0" "acct/logs:/var/log:RO" ≡ ok logs
unfolding parse split
parse_logs = refl

-- An empty target is taken.
parse_empty_target :
    parse lower "v" "acct/logs:"
    ≡ ok (record {
      name = "v";
      storage_account = "acct";
      fileshare = "logs";
      target = "";
      readonly = false;
    })
unfolding parse split
parse_empty_target = refl

parse_no_share : parse lower "v" "acct/" ≡ err (no_fileshare_in "acct/")
unfolding parse split
parse_no_share = refl

parse_bad_mode : parse lower "v" "acct/logs:/l:x" ≡ err (invalid_mode_in "acct/logs:/l:x" "x")
unfolding parse split
parse_bad_mode = refl

get_run_volumes-taken : get_run_volumes lower candidates ≡ ok taken
unfolding get_run_volumes run_volumes_from parse split itoa insert
get_run_volumes-taken = refl

parse-IsSpecified_example :
    (parse lower "volume-0" "acct/logs:/var/log:RO" ≡ ok logs)
    ↔ ((logs.name ≡ "volume-0") × IsSpecified lower "acct/logs:/var/log:RO" logs)
parse-IsSpecified_example = parse-IsSpecified lower "volume-0" "acct/logs:/var/log:RO" logs

abbrev keys : String → String
keys account = "secret"

get_run_volumes-mounted_example :
    (azure : List AciVolume) × (mounts : List VolumeMount) × (get_aci_file_volumes
        (λ a. some (keys a))
        taken.0
      ≡ ok azure)
    × (get_aci_file_volume_mounts taken.1 ≡ ok mounts)
    × ((i : ℕ) (c : String)
        → get_elem? candidates i ≡ some c
        → (vi : VolumeInput) × IsSpecified lower c vi
          × (get_elem? mounts i ≡ some (mount_of vi))
          × (volume_named vi.name azure ≡ some (aci_volume_of keys vi.name vi)))
unfolding lookup
get_run_volumes-mounted_example =
    get_run_volumes-mounted lower keys candidates taken.0 taken.1 taken.0 get_run_volumes-taken
      (refl, (refl, tt)) (λ k. refl)
