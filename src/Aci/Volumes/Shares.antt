-- ===== src/Aci/Volumes/Shares.antt =====
-- The volumes of a project as the file shares of Azure, where they come from the texts of `run`.
use text.Mathlib.TextLemmas.{append_cancel_left}
use compose_cli.Prelude.{
  ℕ, String, ◌≡◌, refl, sym, ap, ◌∙◌, inl, inr, Bool-cases, Option, none, some, List, [], ◌∷◌, All,
  eq_iff, ◌==◌, if◌then◌else◌,
}
use compose_cli.Prelude.GoMap.{GoMap, lookup, insert}
use compose_cli.Prelude.Results.{ok}
use compose_cli.Go.Strconv.{itoa, itoa_injective}
use compose_cli.Aci.Volumes.{
  VolumeConfig, AciVolume, VolumeMount, VolumeInput, to_aci_volume, get_aci_file_volumes,
  volume_name_of, config_of,
}

abbrev pub volume_named : String → List AciVolume → Option AciVolume
volume_named wanted [] = none
volume_named wanted (v ∷ volumes) = if v.name == wanted then some v else volume_named wanted volumes

abbrev pub aci_volume_of : (String → String) → String → VolumeInput → AciVolume
aci_volume_of keys volume_name vi = record {
  name = volume_name;
  share_name = vi.fileshare;
  storage_account_name = vi.storage_account;
  storage_account_key = keys vi.storage_account;
  read_only = vi.readonly;
}

abbrev pub mount_of : VolumeInput → VolumeMount
mount_of vi = record { name = vi.name; mount_path = vi.target }

pub volume_name_of_injective : (i j : ℕ) → volume_name_of i ≡ volume_name_of j → i ≡ j
volume_name_of_injective i j e =
    itoa_injective i j (append_cancel_left "volume-" (itoa i) (itoa j) e)

pub to_aci_volume-config_of :
    (keys : String → String) (k : String) (vi : VolumeInput)
    → to_aci_volume (λ a. some (keys a)) k (config_of vi) ≡ ok (aci_volume_of keys k vi)
unfolding to_aci_volume lookup insert
to_aci_volume-config_of keys k vi = elim (Bool-cases vi.readonly) [
  | inl ro ↦ rw ro refl
  | inr writable ↦ rw writable refl
]

pub some_injective : {A : Type 0} {a b : A} → some a ≡ some b → a ≡ b
some_injective e = cc

abbrev pub IsOfInput : VolumeConfig → Type 0
IsOfInput v = (vi : VolumeInput) × (v ≡ config_of vi)

abbrev pub HoldsOfEach : GoMap VolumeConfig → Type 0
HoldsOfEach volumes = (k : String) (v : VolumeConfig) → lookup k volumes ≡ some v → IsOfInput v

-- Each volume becomes that of Azure.
abbrev pub IsMade : (String → String) → GoMap VolumeConfig → List AciVolume → Type 0
IsMade keys volumes azure =
    (k : String) (v : VolumeConfig)
    → lookup k volumes ≡ some v
    → (a : AciVolume) × (volume_named k azure ≡ some a)
      × (to_aci_volume (λ b. some (keys b)) k v ≡ ok a)

pub get_aci_file_volumes-IsMade :
    (keys : String → String) (ranged : GoMap VolumeConfig)
    → All (λ entry. IsOfInput entry.1) ranged
    → (azure : List AciVolume) × (get_aci_file_volumes (λ a. some (keys a)) ranged ≡ ok azure)
      × IsMade keys ranged azure
unfolding get_aci_file_volumes lookup
get_aci_file_volumes-IsMade keys [] all = ([], refl, λ k v found. cc)
get_aci_file_volumes-IsMade keys ((k, v) ∷ ranged) ((vi, is_config), all) =
    let (azure, made, is_made) = get_aci_file_volumes-IsMade keys ranged all in
    (
      aci_volume_of keys k vi ∷ azure,
      rw is_config (rw (to_aci_volume-config_of keys k vi) (rw made refl)),
      λ other w found. elim (Bool-cases (k == other)) [
        | inl same ↦ (
          aci_volume_of keys k vi,
          rw same refl,
          ap (λ name. to_aci_volume (λ b. some (keys b)) name w) (sym ((eq_iff k other).0 same))
              ∙ ap (to_aci_volume (λ b. some (keys b)) k)
                  (some_injective (sym found ∙ rw same refl) ∙ is_config)
              ∙ to_aci_volume-config_of keys k vi,
        )
        | inr apart ↦
            let (a, named, of_a) = is_made other w (sym (rw apart refl) ∙ found) in
            (a, rw apart named, of_a)
      ],
    )
