-- ===== src/Compose/Mounts/Precedence.antt =====
-- Which mount a container gets at a target, in local/compose/create.go.
use mathlib.Core.Path.{subst}
use compose_cli.Prelude.{
  ◌≢◌, not_both, Option-cases, String, ◌≡◌, refl, sym, ap, ◌∙◌, Bool, true, false, Bool-cases, inl,
  inr, Option, none, some, List, [], ◌∷◌, All, arith, ◌==◌, if◌then◌else◌, eq_iff,
}
use compose_cli.Prelude.GoMap.{GoMap, lookup, insert, has, lookup-insert}
use compose_cli.Prelude.Results.{Result, ok, err, ◌>>=◌, >>=-eq-ok}
use compose_cli.Compose.Types.{ServiceConfig, ServiceVolume, ServiceSecret, Project}
use compose_cli.Compose.Mounts.{
  Paths, Mount, MountPoint, MountError, build_mount, absolute_source, secret_target, secret_volume,
  defined_secret, build_secret_mounts, inherit_mounts, image_volume, image_mounts, service_mounts,
  add_secrets, build_container_mount_options,
}

abbrev pub or_else : {A : Type 0} → Option A → Option A → Option A
or_else none o = o
or_else (some a) o = some a

-- At the target, the first map is the second laid over the third.
abbrev IsOver : String → GoMap Mount → GoMap Mount → GoMap Mount → Type 0
IsOver t a c b = lookup t a ≡ or_else (lookup t c) (lookup t b)

IsOver-insert :
    (t k : String) (m : Mount) (a c b : GoMap Mount)
    → IsOver t a c b
    → IsOver t (insert k m a) (insert k m c) b
IsOver-insert t k m a c b over = ground (arith, over, lookup-insert k t m a, lookup-insert k t m c)

same_map : {a r : GoMap Mount} → ◌≡◌ {A = Result MountError (GoMap Mount)} (ok a) (ok r) → r ≡ a
same_map e = cc

failed_map :
    {e : MountError} {r : GoMap Mount}
    → ◌≡◌ {A = Result MountError (GoMap Mount)} (err e) (ok r)
    → ⊥
failed_map same = ground arith

or_else_assoc :
    (a b c d : Option Mount)
    → or_else (or_else a (or_else b c)) d ≡ or_else a (or_else b (or_else c d))
or_else_assoc none none c d = refl
or_else_assoc none (some b) c d = refl
or_else_assoc (some a) b c d = refl

-- A secret whose target is taken, and one whose target is free.
shadowed :
    (here : Bool) (before rest : Option Mount) (s : Mount)
    → (here ≡ true → before ≢ none)
    → or_else before rest ≡ or_else before (if here then some s else rest)
shadowed true none rest s taken = absurd (taken refl refl)
shadowed true (some m) rest s taken = refl
shadowed false before rest s taken = refl

placed :
    (here : Bool) (before rest : Option Mount) (s : Mount)
    → (here ≡ true → before ≡ none)
    → or_else (if here then some s else before) rest
      ≡ or_else before (if here then some s else rest)
placed true before rest s free = rw (free refl) refl
placed false before rest s free = refl

has-taken :
    (k t : String) (mounts : GoMap Mount)
    → has k mounts ≡ true
    → (k == t) ≡ true
    → lookup t mounts ≢ none
unfolding has
has-taken k t mounts taken same missing = absurd (
    not_both (subst (λ x. has x mounts ≡ true) ((eq_iff k t).0 same) taken)
      (rw (missing, has) refl))

has-free :
    (k t : String) (mounts : GoMap Mount)
    → has k mounts ≡ false
    → (k == t) ≡ true
    → lookup t mounts ≡ none
unfolding has
has-free k t mounts free same = elim (Option-cases (lookup t mounts)) [
  | inl missing ↦ missing
  | inr (m, found) ↦ absurd (
      not_both (rw (found, has) refl)
        (subst (λ x. has x mounts ≡ false) ((eq_iff k t).0 same) free))
]

module _ (paths : Paths) (p : Project) (t : String) where
  service_mounts-IsOver :
      (volumes : List ServiceVolume) (a c b r s : GoMap Mount)
      → IsOver t a c b
      → service_mounts paths p volumes a ≡ ok r
      → service_mounts paths p volumes c ≡ ok s
      → IsOver t r s b
  unfolding service_mounts
  service_mounts-IsOver [] a c b r s over run_a run_c = rw (same_map run_a, same_map run_c) over
  service_mounts-IsOver (v ∷ volumes) a c b r s over run_a run_c =
      let (m, built, rest) =
        >>=-eq-ok (build_mount paths p v)
          (λ m. service_mounts paths p volumes (insert m.target m a)) run_a in
      service_mounts-IsOver volumes (insert m.target m a) (insert m.target m c) b r s
        (IsOver-insert t m.target m a c b over) rest (rw built at run_c)

  image_mounts-IsOver :
      (ks : List String) (a c b r s : GoMap Mount)
      → IsOver t a c b
      → image_mounts paths p ks a ≡ ok r
      → image_mounts paths p ks c ≡ ok s
      → IsOver t r s b
  unfolding image_mounts
  image_mounts-IsOver [] a c b r s over run_a run_c = rw (same_map run_a, same_map run_c) over
  image_mounts-IsOver (k ∷ ks) a c b r s over run_a run_c =
      let (m, built, rest) =
        >>=-eq-ok (build_mount paths p (image_volume k))
          (λ m. image_mounts paths p ks (insert k m a)) run_a in
      image_mounts-IsOver ks (insert k m a) (insert k m c) b r s (IsOver-insert t k m a c b over)
        rest (rw built at run_c)

  -- Each mount is held under its target.
  abbrev HasTarget : String × Mount → Type 0
  HasTarget (k, m) = m.target ≡ k

  insert-HasTarget :
      (k : String) (m : Mount) (mounts : GoMap Mount)
      → m.target ≡ k
      → All HasTarget mounts
      → All HasTarget (insert k m mounts)
  unfolding insert
  insert-HasTarget k m [] own held = (own, tt)
  insert-HasTarget k m ((j, n) ∷ mounts) own (held, rest) = elim (Bool-cases (j == k)) [
    | inl same ↦ rw same (own, rest)
    | inr apart ↦ rw apart (held, insert-HasTarget k m mounts own rest)
  ]

  lookup-add_secrets :
      (secrets mounts : GoMap Mount)
      → All HasTarget secrets
      → lookup t (add_secrets secrets mounts) ≡ or_else (lookup t mounts) (lookup t secrets)
  unfolding add_secrets lookup
  lookup-add_secrets [] mounts held = ground arith
  lookup-add_secrets ((k, s) ∷ secrets) mounts (held, rest) =
      subst
        (λ x.
          lookup t (add_secrets ((x, s) ∷ secrets) mounts)
          ≡ or_else (lookup t mounts) (lookup t ((x, s) ∷ secrets)))
        held
        (elim (Bool-cases (has s.target mounts)) [
          | inl taken ↦ rw taken (
              lookup-add_secrets secrets mounts rest
              ∙ shadowed (s.target == t) (lookup t mounts) (lookup t secrets) s
                  (has-taken s.target t mounts taken))
          | inr free ↦ rw free (
              lookup-add_secrets secrets (insert s.target s mounts) rest
              ∙ rw (lookup-insert s.target t s mounts) (
                  placed (s.target == t) (lookup t mounts) (lookup t secrets) s
                    (has-free s.target t mounts free)))
        ])

  build_mount-target :
      (v : ServiceVolume) (m : Mount) → build_mount paths p v ≡ ok m → m.target ≡ v.target
  unfolding build_mount
  build_mount-target v m built =
      let (source, _, same) = >>=-eq-ok (absolute_source paths v) _ built in cc

  build_secret_mounts-HasTarget :
      (secrets : List ServiceSecret) (mounts made : GoMap Mount)
      → All HasTarget mounts
      → build_secret_mounts paths p secrets mounts ≡ ok made
      → All HasTarget made
  unfolding build_secret_mounts
  build_secret_mounts-HasTarget [] mounts made held run =
      subst (λ x. All HasTarget x) (sym (same_map run)) held
  build_secret_mounts-HasTarget (secret ∷ secrets) mounts made held run =
      elim (Bool-cases (defined_secret p secret.source).external) [
        | inl external ↦ absurd (failed_map (rw external at run))
        | inr own ↦
            (let (m, built, rest) =
                >>=-eq-ok
                  (build_mount paths p
                    (secret_volume (defined_secret p secret.source) (secret_target paths secret)))
                  (λ m.
                    build_secret_mounts paths p secrets
                      (insert (secret_target paths secret) m mounts))
                  (rw own at run) in
              build_secret_mounts-HasTarget secrets (insert (secret_target paths secret) m mounts)
                made
                (insert-HasTarget (secret_target paths secret) m mounts
                  (build_mount-target
                    (secret_volume (defined_secret p secret.source) (secret_target paths secret)) m
                    built)
                  held)
                rest)
      ]

  -- At each target a container has the mount of the service's own volumes, or else of the image's,
  -- or else of the container that it replaces, or else of the service's secrets. Condition: the
  -- mounts of each kind are made.
  pub build_container_mount_options-or_else :
      (s : ServiceConfig) (image_volumes : List String) (inherited : List MountPoint)
      (mounts volumes images secrets : GoMap Mount)
      → build_container_mount_options paths p s image_volumes inherited ≡ ok mounts
      → service_mounts paths p s.volumes [] ≡ ok volumes
      → image_mounts paths p image_volumes [] ≡ ok images
      → build_secret_mounts paths p s.secrets [] ≡ ok secrets
      → lookup t mounts
        ≡ or_else (lookup t volumes) (
            or_else
              (lookup t images)
              (or_else (lookup t (inherit_mounts inherited [])) (lookup t secrets)))
  unfolding build_container_mount_options lookup
  build_container_mount_options-or_else s image_volumes inherited mounts volumes images secrets run
        of_service of_image of_secrets =
      let (with_image, imaged, run') =
        >>=-eq-ok (image_mounts paths p image_volumes (inherit_mounts inherited []))
          (λ with_image. do
            with_volumes ← service_mounts paths p s.volumes with_image
            secrets ← build_secret_mounts paths p s.secrets []
            ok (add_secrets secrets with_volumes))
          run in
      let (with_volumes, mounted, run'') =
        >>=-eq-ok (service_mounts paths p s.volumes with_image)
          (λ with_volumes. do
            secrets ← build_secret_mounts paths p s.secrets []
            ok (add_secrets secrets with_volumes))
          run' in
      let (found, same_secrets, last) =
        >>=-eq-ok (build_secret_mounts paths p s.secrets [])
          (λ secrets. ok (add_secrets secrets with_volumes)) run'' in
      ap (λ x. lookup t x) (same_map last)
      ∙ lookup-add_secrets found with_volumes
          (build_secret_mounts-HasTarget s.secrets [] found tt same_secrets)
      ∙ ap (λ o. or_else o (lookup t found))
          (service_mounts-IsOver s.volumes with_image [] with_image with_volumes volumes refl
            mounted of_service)
      ∙ ap (λ o. or_else (or_else (lookup t volumes) o) (lookup t found))
          (image_mounts-IsOver image_volumes (inherit_mounts inherited []) []
            (inherit_mounts inherited []) with_image images refl imaged of_image)
      ∙ or_else_assoc (lookup t volumes) (lookup t images) (lookup t (inherit_mounts inherited []))
          (lookup t found)
      ∙ ap
          (λ x. or_else (lookup t volumes) (
            or_else (lookup t images)
              (or_else (lookup t (inherit_mounts inherited [])) (lookup t x))))
          (same_map (sym of_secrets ∙ same_secrets))
