-- ===== src/Compose/Convergence/Scaling.antt =====
-- `nextContainerNumber` and `ensureScale` of local/compose/convergence.go: a service ends up with
-- as many containers as its scale says.
use mathlib.Core.Path.{subst}
use mathlib.Core.List.{append-nil}
use compose_cli.Prelude.{
  ℕ, zero, suc, ◌+◌, ◌-◌, ◌^◌, ◌≤◌, ◌<◌, String, ◌≡◌, refl, ap, ◌∙◌, true, false, some,
  Option-cases, inl, inr, Bool-cases, List, [], ◌∷◌, ◌++◌, All, arith, length, take, drop,
  take-append-drop, length-take_le, ltb,
}
use compose_cli.Prelude.Results.{Result, ok, >>=-eq-ok}
use compose_cli.Go.Ints.{ℤ, pos, negsuc, add_int, lt_int}
use compose_cli.Go.Strconv.{atoi, atoi-lt}
use compose_cli.Compose.Types.{Container, ServiceConfig, label, container_number_label}
use compose_cli.Compose.Convergence.{
  Fault, larger, max_number, next_container_number, Job, create, remove_surplus, recreate, restart,
  create_missing, remove_all, ensure_scale,
}

-- The container has a number, and the number is below the bound.
pub record IsNumberedBelow (bound : ℕ) (c : Container) : Type 0 where
  pub number : ℤ
  pub has_number : atoi (label c container_number_label) ≡ some number
  pub below : lt_int number (pos bound) ≡ true

larger_bounds :
    (max : ℕ) (z : ℤ) → (max ≤ larger max z) × (lt_int z (pos (suc (larger max z))) ≡ true)
larger_bounds max (pos n) = ground arith
larger_bounds max (negsuc n) = ground arith

larger-lt : (t : String) (max : ℕ) (z : ℤ) → atoi t ≡ some z → max < 2 ^ 63 → larger max z < 2 ^ 63
larger-lt t max (pos n) e small = ground (arith, atoi-lt t n e)
larger-lt t max (negsuc n) e small = small

lt_int_mono : (z : ℤ) (a b : ℕ) → a ≤ b → lt_int z (pos a) ≡ true → lt_int z (pos b) ≡ true
lt_int_mono (pos n) a b h below = ground arith
lt_int_mono (negsuc n) a b h below = refl

record Found (max : ℕ) (containers : List Container) (k : ℕ) : Type 0 where
  at_least : max ≤ k
  in_range : k < 2 ^ 63
  numbered : All (IsNumberedBelow (suc k)) containers

max_number-Found :
    (max : ℕ) (containers : List Container) (k : ℕ)
    → max < 2 ^ 63
    → max_number max containers ≡ ok k
    → Found max containers k
unfolding max_number
max_number-Found max [] k small e = record {
  at_least = ground arith;
  in_range = ground arith;
  numbered = tt;
}
max_number-Found max (c ∷ cs) k small e =
    elim (Option-cases (atoi (label c container_number_label))) [
      | inl bad ↦ absurd (cc (rw (bad, max_number) at e))
      | inr (z, good) ↦
          let rest =
            max_number-Found (larger max z) cs k (larger-lt _ max z good small)
              (rw (good, max_number) at e) in
          record {
            at_least = omega (arith, (larger_bounds max z).0, rest.at_least);
            in_range = rest.in_range;
            numbered = (
              record {
                number = z;
                has_number = good;
                below = lt_int_mono z _ _ (omega (arith, rest.at_least)) (larger_bounds max z).1;
              },
              rest.numbered,
            );
          }
    ]

ok_injective : {A : Type 0} {a b : A} → ◌≡◌ {A = Result Fault A} (ok a) (ok b) → a ≡ b
ok_injective h = cc

-- The next number is above the numbers of all the containers, unless it overflows.
pub next_container_number-above :
    (containers : List Container) (n : ℕ)
    → next_container_number containers ≡ ok (pos n)
    → All (IsNumberedBelow n) containers
unfolding next_container_number
next_container_number-above containers n e =
    let (k, found, next) = >>=-eq-ok (max_number 0 containers) _ e in
    let f = max_number-Found 0 containers k (omega arith) found in
    subst (λ b. All (IsNumberedBelow b) containers) (next_is_suc k n f.in_range (ok_injective next))
      f.numbered
  where
    next_is_suc : (k n : ℕ) → k < 2 ^ 63 → add_int (pos k) 1 ≡ pos n → suc k ≡ n
    next_is_suc k n small h = ground arith

-- How many containers the jobs create, and which they remove.
abbrev pub creations : List Job → ℕ
creations [] = 0
creations (create name number ∷ jobs) = suc (creations jobs)
creations (remove_surplus c ∷ jobs) = creations jobs
creations (recreate i ∷ jobs) = creations jobs
creations (restart i ∷ jobs) = creations jobs

abbrev pub removals : List Job → List Container
removals [] = []
removals (create name number ∷ jobs) = removals jobs
removals (remove_surplus c ∷ jobs) = c ∷ removals jobs
removals (recreate i ∷ jobs) = removals jobs
removals (restart i ∷ jobs) = removals jobs

creations-create_missing :
    (project_name : String) (service : ServiceConfig) (next : ℤ) (i missing : ℕ)
    → (creations (create_missing project_name service next i missing) ≡ missing)
      × (removals (create_missing project_name service next i missing) ≡ [])
unfolding create_missing
creations-create_missing project_name service next i zero = (refl, refl)
creations-create_missing project_name service next i (suc missing) =
    let (n, none_removed) = creations-create_missing project_name service next (suc i) missing in
    (ap suc n, none_removed)

creations-remove_all :
    (cs : List Container) → (creations (remove_all cs) ≡ 0) × (removals (remove_all cs) ≡ cs)
unfolding remove_all
creations-remove_all [] = (refl, refl)
creations-remove_all (c ∷ cs) =
    let (n, removed) = creations-remove_all cs in (n, ap (λ r. c ∷ r) removed)

module _ (project_name : String) (service : ServiceConfig) (actual kept : List Container)
    (scale : ℕ) (jobs : List Job)
    (scaled : ensure_scale project_name service actual (pos scale) ≡ ok (jobs, kept)) where
  -- The three cases of `ensureScale`.
  pub ensure_scale_grows :
      ltb (length actual) scale ≡ true
      → (next : ℤ) × (next_container_number actual ≡ ok next)
        × (jobs ≡ create_missing project_name service next 0 (scale - length actual))
        × (kept ≡ actual)
  unfolding ensure_scale
  ensure_scale_grows short =
      let (next, numbered, same) =
        >>=-eq-ok (next_container_number actual) _ (rw (short, ensure_scale) at scaled) in
      (next, numbered, cc same, cc same)

  ensure_scale_shrinks :
      ltb (length actual) scale ≡ false
      → ltb scale (length actual) ≡ true
      → (jobs ≡ remove_all (drop scale actual)) × (kept ≡ take scale actual)
  unfolding ensure_scale
  ensure_scale_shrinks not_short long = ground arith

  ensure_scale_keeps :
      ltb (length actual) scale ≡ false
      → ltb scale (length actual) ≡ false
      → (jobs ≡ []) × (kept ≡ actual)
  unfolding ensure_scale
  ensure_scale_keeps not_short not_long = ground arith

  -- `ensureScale` keeps or removes each container, in order, and creates what is missing: the kept
  -- and the created are together as many as the scale says.
  pub ensure_scale_lem : (length kept + creations jobs ≡ scale) × (kept ++ removals jobs ≡ actual)
  ensure_scale_lem = elim (Bool-cases (ltb (length actual) scale)) [
    | inl short ↦
        let (next, numbered, made, same) = ensure_scale_grows short in
        let (count, none_removed) =
          creations-create_missing project_name service next 0 (scale - length actual) in
        rw (made, same)
          (ground (arith, count), ap (λ r. actual ++ r) none_removed ∙ append-nil actual)
    | inr not_short ↦ elim (Bool-cases (ltb scale (length actual))) [
      | inl long ↦
          let (made, same) = ensure_scale_shrinks not_short long in
          let (count, removed) = creations-remove_all (drop scale actual) in
          rw (made, same)
            (
              ground (arith, count, length-take_le scale actual),
              ap (λ r. take scale actual ++ r) removed ∙ take-append-drop scale actual,
            )
      | inr not_long ↦
          let (made, same) = ensure_scale_keeps not_short not_long in
          rw (made, same) (ground arith, append-nil actual)
    ]
  ]
