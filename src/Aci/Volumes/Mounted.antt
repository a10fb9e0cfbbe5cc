-- ===== src/Aci/Volumes/Mounted.antt =====
-- The volumes that `run` is given, from the texts to the shares and the mounts of Azure.
use mathlib.Core.Path.{subst}
use compose_cli.Prelude.{
  ℕ, zero, suc, ◌+◌, ◌≤◌, String, ◌≡◌, ◌≢◌, refl, sym, ap, ◌∙◌, inl, inr, Bool-cases, some, List,
  [], ◌∷◌, get_elem?, arith, eq_iff, ==-false, ◌==◌,
}
use compose_cli.Prelude.GoMap.{
  GoMap, IsMap, lookup, insert, All-lookup, lookup-insert_self, lookup-insert_other,
}
use compose_cli.Prelude.Results.{ok, >>=-eq-ok}
use compose_cli.Aci.Volumes.{
  VolumeConfig, ServiceVolume, AciVolume, VolumeMount, VolumeInput, get_aci_file_volumes,
  get_aci_file_volume_mounts, parse, volume_name_of, config_of, run_volumes_from, get_run_volumes,
}
use compose_cli.Aci.Volumes.Specified.{IsSpecified, parse-IsSpecified, ok_injective}
use compose_cli.Aci.Volumes.Shares.{
  volume_named, aci_volume_of, mount_of, volume_name_of_injective, to_aci_volume-config_of,
  some_injective, IsOfInput, HoldsOfEach, get_aci_file_volumes-IsMade,
}

-- What a run of the loop leaves of a name that it does not come to.
run_volumes_from-kept :
    (to_lower : String → String) (i : ℕ) (candidates : List String) (before : GoMap VolumeConfig)
    (after : GoMap VolumeConfig) (service : List ServiceVolume) (k : String)
    → run_volumes_from to_lower i candidates before ≡ ok (after, service)
    → ((j : ℕ) → i ≤ j → volume_name_of j ≢ k)
    → lookup k after ≡ lookup k before
unfolding run_volumes_from
run_volumes_from-kept to_lower i [] before after service k good other =
    ap (lookup k) (ap (λ p. p.0) (sym (ok_injective good)))
run_volumes_from-kept to_lower i (c ∷ candidates) before after service k good other =
    let (vi, parsed, then_rest) = >>=-eq-ok (parse to_lower (volume_name_of i) c) _ good in
    let (rest, loop, is_result) =
      >>=-eq-ok
        (run_volumes_from to_lower (suc i) candidates (insert vi.name (config_of vi) before)) _
        then_rest in
    ap (lookup k) (ap (λ p. p.0) (sym (ok_injective is_result)))
    ∙ run_volumes_from-kept to_lower (suc i) candidates (insert vi.name (config_of vi) before)
        rest.0 rest.1 k loop (λ j h. other j (omega (arith, h)))
    ∙ lookup-insert_other vi.name k (config_of vi) before (
        ==-false vi.name k (λ e.
          other i (omega arith)
            (sym (((parse-IsSpecified to_lower (volume_name_of i) c vi).0 parsed).0) ∙ e)))

insert-HoldsOfEach :
    (vi : VolumeInput) (volumes : GoMap VolumeConfig)
    → HoldsOfEach volumes
    → HoldsOfEach (insert vi.name (config_of vi) volumes)
insert-HoldsOfEach vi volumes holds k v found = elim (Bool-cases (vi.name == k)) [
  | inl same ↦ (
    vi,
    some_injective (
        sym found
        ∙ ap (λ j. lookup j (insert vi.name (config_of vi) volumes))
            (sym ((eq_iff vi.name k).0 same))
        ∙ lookup-insert_self vi.name (config_of vi) volumes),
  )
  | inr apart ↦ holds k v (sym (lookup-insert_other vi.name k (config_of vi) volumes apart) ∙ found)
]

run_volumes_from-HoldsOfEach :
    (to_lower : String → String) (i : ℕ) (candidates : List String) (before : GoMap VolumeConfig)
    (after : GoMap VolumeConfig) (service : List ServiceVolume)
    → run_volumes_from to_lower i candidates before ≡ ok (after, service)
    → HoldsOfEach before
    → HoldsOfEach after
unfolding run_volumes_from
run_volumes_from-HoldsOfEach to_lower i [] before after service good holds =
    subst (λ p. HoldsOfEach p.0) (ok_injective good) holds
run_volumes_from-HoldsOfEach to_lower i (c ∷ candidates) before after service good holds =
    let (vi, parsed, then_rest) = >>=-eq-ok (parse to_lower (volume_name_of i) c) _ good in
    let next = insert vi.name (config_of vi) before in
    let (rest, loop, is_result) =
      >>=-eq-ok (run_volumes_from to_lower (suc i) candidates next) _ then_rest in
    subst (λ p. HoldsOfEach p.0) (ok_injective is_result)
      (run_volumes_from-HoldsOfEach to_lower (suc i) candidates next rest.0 rest.1 loop
        (insert-HoldsOfEach vi before holds))

-- The text at a position has a volume and a mount.
abbrev IsMounted :
    (String → String) → ℕ → List String → GoMap VolumeConfig → List VolumeMount → Type 0
IsMounted to_lower i candidates volumes mounts =
    (k : ℕ) (c : String)
    → get_elem? candidates k ≡ some c
    → (vi : VolumeInput) × (parse to_lower (volume_name_of (i + k)) c ≡ ok vi)
      × (lookup vi.name volumes ≡ some (config_of vi))
      × (get_elem? mounts k ≡ some (mount_of vi))

run_volumes_from-IsMounted :
    (to_lower : String → String) (i : ℕ) (candidates : List String) (before : GoMap VolumeConfig)
    (after : GoMap VolumeConfig) (service : List ServiceVolume)
    → run_volumes_from to_lower i candidates before ≡ ok (after, service)
    → (mounts : List VolumeMount) × (get_aci_file_volume_mounts service ≡ ok mounts)
      × IsMounted to_lower i candidates after mounts
unfolding run_volumes_from get_aci_file_volume_mounts
run_volumes_from-IsMounted to_lower i [] before after service good = (
  [],
  subst (λ p. get_aci_file_volume_mounts p.1 ≡ ok []) (ok_injective good) refl,
  λ k c found. cc,
)
run_volumes_from-IsMounted to_lower i (c ∷ candidates) before after service good =
    let (vi, parsed, then_rest) = >>=-eq-ok (parse to_lower (volume_name_of i) c) _ good in
    let next = insert vi.name (config_of vi) before in
    let (rest, loop, is_result) =
      >>=-eq-ok (run_volumes_from to_lower (suc i) candidates next) _ then_rest in
    let (mounts, made, mounted) =
      run_volumes_from-IsMounted to_lower (suc i) candidates next rest.0 rest.1 loop in
    let named = ((parse-IsSpecified to_lower (volume_name_of i) c vi).0 parsed).0 in
    subst
      (λ p.
        (all : List VolumeMount) × (get_aci_file_volume_mounts p.1 ≡ ok all)
        × IsMounted to_lower i (c ∷ candidates) p.0 all)
      (ok_injective is_result)
      (
        mount_of vi ∷ mounts,
        rw made refl,
        first_or_later vi rest.0 mounts
            (ap (λ n. parse to_lower (volume_name_of n) c) (omega arith) ∙ parsed)
            (run_volumes_from-kept to_lower (suc i) candidates next rest.0 rest.1 vi.name loop
                (λ j h e. absurd (omega (arith, h, volume_name_of_injective j i (e ∙ named))))
              ∙ lookup-insert_self vi.name (config_of vi) before)
            mounted,
      )
  where
    first_or_later :
        (vi : VolumeInput) (volumes : GoMap VolumeConfig) (mounts : List VolumeMount)
        → parse to_lower (volume_name_of (i + 0)) c ≡ ok vi
        → lookup vi.name volumes ≡ some (config_of vi)
        → IsMounted to_lower (suc i) candidates volumes mounts
        → IsMounted to_lower i (c ∷ candidates) volumes (mount_of vi ∷ mounts)
    first_or_later vi volumes mounts parsed held mounted zero d found = (
      vi,
      subst (λ t. parse to_lower (volume_name_of (i + 0)) t ≡ ok vi) (some_injective found) parsed,
      held,
      refl,
    )
    first_or_later vi volumes mounts parsed held mounted (suc k) d found =
        subst
          (λ n.
            (w : VolumeInput) × (parse to_lower (volume_name_of n) d ≡ ok w)
            × (lookup w.name volumes ≡ some (config_of w))
            × (get_elem? mounts k ≡ some (mount_of w)))
          (omega arith) (mounted k d found)

-- Each text that `run` is given for a volume is a specified one, its mount stands at the same
-- position with the target of the text, and the volume of Azure with the name of the mount is the
-- share of the account in the text, read-only if the text says so. Conditions: the texts are taken,
-- the account keys are there, and `ranged` is the order of the range over the project's volumes.
pub get_run_volumes-mounted :
    (to_lower : String → String) (keys : String → String) (candidates : List String)
    (volumes : GoMap VolumeConfig) (service : List ServiceVolume) (ranged : GoMap VolumeConfig)
    → get_run_volumes to_lower candidates ≡ ok (volumes, service)
    → IsMap ranged
    → ((k : String) → lookup k ranged ≡ lookup k volumes)
    → (azure : List AciVolume) × (mounts : List VolumeMount) × (get_aci_file_volumes
          (λ a. some (keys a))
          ranged
        ≡ ok azure)
      × (get_aci_file_volume_mounts service ≡ ok mounts)
      × ((i : ℕ) (c : String)
          → get_elem? candidates i ≡ some c
          → (vi : VolumeInput) × IsSpecified to_lower c vi
            × (get_elem? mounts i ≡ some (mount_of vi))
            × (volume_named vi.name azure ≡ some (aci_volume_of keys vi.name vi)))
unfolding get_run_volumes
get_run_volumes-mounted to_lower keys candidates volumes service ranged good distinct same =
    let holds =
      run_volumes_from-HoldsOfEach to_lower 0 candidates [] volumes service good
        (λ k v found. unfold lookup in cc) in
    let (azure, made, is_made) =
      get_aci_file_volumes-IsMade keys ranged
        (All-lookup IsOfInput ranged distinct (λ k v found. holds k v (sym (same k) ∙ found))) in
    let (mounts, mounts_made, mounted) =
      run_volumes_from-IsMounted to_lower 0 candidates [] volumes service good in
    (
      azure,
      mounts,
      made,
      mounts_made,
      λ i c found.
          let (vi, parsed, held, at_i) = mounted i c found in
          let (a, named, of_a) = is_made vi.name (config_of vi) (same vi.name ∙ held) in
          (
            vi,
            ((parse-IsSpecified to_lower (volume_name_of (0 + i)) c vi).0 parsed).1,
            at_i,
            named ∙ ap some (ok_injective (sym of_a ∙ to_aci_volume-config_of keys vi.name vi)),
          ),
    )
