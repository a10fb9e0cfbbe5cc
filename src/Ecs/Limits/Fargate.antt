-- ===== src/Ecs/Limits/Fargate.antt =====
-- The choice of `toLimits` of ecs/convert.go among what Fargate offers.
use mathlib.Core.Path.{subst}
use compose_cli.Prelude.{
  not_both, ℕ, zero, suc, ◌*◌, ◌≤◌, String, ◌≡◌, refl, sym, ap, ◌∙◌, Bool, true, false, ◌&&◌,
  Bool-cases, Option, none, some, Option-cases, List, [], ◌∷◌, ◌++◌, get_elem?, inl, inr, ◌⊎◌,
  arith, if◌then◌else◌,
}
use compose_cli.Prelude.Results.{Result, ok, err}
use compose_cli.Go.Ints.{ℤ, pos, is_zero, le_int}
use compose_cli.Go.Strconv.{itoa}
use compose_cli.Ecs.Types.{Service}
use compose_cli.Ecs.Limits.{
  LimitError, unsupported, mi_b, fargate_cpu_to_mem, first_memory, first_option, limits_for,
  to_limits, require_ec2, get_configured_limits,
}

-- The offers of a table, one by one and in its order.
abbrev pub offers_of : ℕ → List ℕ → List (ℕ × ℕ)
offers_of c [] = []
offers_of c (m ∷ options) = (c, m) ∷ offers_of c options

abbrev pub offers : List (ℕ × List ℕ) → List (ℕ × ℕ)
offers [] = []
offers ((c, options) ∷ rows) = offers_of c options ++ offers rows

module _ (mem cpu : ℤ) where
  abbrev pub fits : ℕ × ℕ → Bool
  fits (c, m) = le_int cpu (pos c) && le_int mem (pos (m * mi_b))

  abbrev first_fit : List (ℕ × ℕ) → Option (ℕ × ℕ)
  first_fit [] = none
  first_fit (o ∷ os) = if fits o then some o else first_fit os

  first_fit-offers_of :
      (c : ℕ) (options : List ℕ) (os : List (ℕ × ℕ))
      → first_fit (offers_of c options ++ os) ≡ (
          if le_int cpu (pos c)
          then (elim (first_memory mem options) [ some m ↦ some (c, m) | none ↦ first_fit os ])
          else first_fit os)
  unfolding first_memory
  first_fit-offers_of c [] os = ground arith
  first_fit-offers_of c (m ∷ options) os = ground (arith, first_fit-offers_of c options os)

  first_option-first_fit :
      (rows : List (ℕ × List ℕ)) → first_option mem cpu rows ≡ first_fit (offers rows)
  unfolding first_option
  first_option-first_fit [] = refl
  first_option-first_fit ((c, options) ∷ rows) =
      ground (arith, first_fit-offers_of c options (offers rows), first_option-first_fit rows)

  -- The offer is enough, and no earlier one of the list is.
  pub record IsFirstFit (os : List (ℕ × ℕ)) (o : ℕ × ℕ) : Type 0 where
    pub place : ℕ
    pub offered : get_elem? os place ≡ some o
    pub enough : fits o ≡ true
    pub first : (j : ℕ) (q : ℕ × ℕ) → get_elem? os j ≡ some q → fits q ≡ true → place ≤ j

  first_fit-fits :
      (p o : ℕ × ℕ) (os : List (ℕ × ℕ)) → fits p ≡ true → first_fit (p ∷ os) ≡ some o → p ≡ o
  first_fit-fits p o os fit found = cc (rw fit at found)

  first_fit-skip :
      (p : ℕ × ℕ) (os : List (ℕ × ℕ)) → fits p ≡ false → first_fit (p ∷ os) ≡ first_fit os
  first_fit-skip p os unfit = rw unfit refl

  IsFirstFit-later :
      (p o : ℕ × ℕ) (os : List (ℕ × ℕ)) → fits p ≡ false → IsFirstFit os o → IsFirstFit (p ∷ os) o
  IsFirstFit-later p o os unfit later = record {
    place = suc later.place;
    offered = later.offered;
    enough = later.enough;
    first = after;
  }
    where
      after :
          (j : ℕ) (q : ℕ × ℕ) → get_elem? (p ∷ os) j ≡ some q → fits q ≡ true → suc later.place ≤ j
      after zero q at fit = absurd (not_both fit (subst (λ x. fits x ≡ false) (cc at) unfit))
      after (suc j) q at fit = omega (arith, later.first j q at fit)

  first_fit-IsFirstFit : (os : List (ℕ × ℕ)) (o : ℕ × ℕ) → first_fit os ≡ some o → IsFirstFit os o
  first_fit-IsFirstFit [] o found = absurd (ground arith)
  first_fit-IsFirstFit (p ∷ os) o found = elim (Bool-cases (fits p)) [
    | inl fit ↦ record {
      place = 0;
      offered = ap some (first_fit-fits p o os fit found);
      enough = subst (λ x. fits x ≡ true) (first_fit-fits p o os fit found) fit;
      first = λ j q at fit_q. omega arith;
    }
    | inr unfit ↦
        IsFirstFit-later p o os unfit
          (first_fit-IsFirstFit os o (sym (first_fit-skip p os unfit) ∙ found))
  ]

  first_fit-none :
      (os : List (ℕ × ℕ)) (j : ℕ) (q : ℕ × ℕ)
      → first_fit os ≡ none
      → get_elem? os j ≡ some q
      → fits q ≡ false
  first_fit-none [] j q missing at = absurd (ground arith)
  first_fit-none (p ∷ os) zero q missing at = elim (Bool-cases (fits p)) [
    | inl fit ↦ absurd (ground (arith, fit))
    | inr unfit ↦ subst (λ x. fits x ≡ false) (cc at) unfit
  ]
  first_fit-none (p ∷ os) (suc j) q missing at = elim (Bool-cases (fits p)) [
    | inl fit ↦ absurd (ground (arith, fit))
    | inr unfit ↦ first_fit-none os j q (sym (first_fit-skip p os unfit) ∙ missing) at
  ]

-- Printed as the two texts.
abbrev printed : Option (ℕ × ℕ) → Result LimitError (String × String)
printed none = err unsupported
printed (some (c, m)) = ok (itoa c, itoa m)

is_zero_iff : (z : ℤ) → is_zero z ≡ true → z ≡ pos 0
is_zero_iff z e = ground arith

limits_for-printed :
    (mem cpu : ℤ) → limits_for false mem cpu ≡ printed (first_option mem cpu fargate_cpu_to_mem)
unfolding limits_for first_option first_memory itoa
limits_for-printed mem cpu = elim (Bool-cases (is_zero mem && is_zero cpu)) [
  | inl nothing ↦ rw (is_zero_iff mem (ground arith), is_zero_iff cpu (ground arith)) smallest
  | inr something ↦ rw something refl
]
  where
    smallest :
        limits_for false (pos 0) (pos 0) ≡ printed (first_option (pos 0) (pos 0) fargate_cpu_to_mem)
    smallest = refl

-- On Fargate the result is the first offer that is enough for the configured CPU and memory, in the
-- order of ascending CPU and then ascending memory; there is an error exactly if no offer is
-- enough. Conditions: the service needs no EC2 machine, and its configured limits are read.
pub to_limits_decides :
    (parse_cpus : String → Option ℤ) (s : Service) (mem cpu : ℤ)
    → require_ec2 s ≡ false
    → get_configured_limits parse_cpus s ≡ ok (mem, cpu)
    → ((o : ℕ × ℕ) × (to_limits parse_cpus s ≡ ok (itoa o.0, itoa o.1))
        × IsFirstFit mem cpu (offers fargate_cpu_to_mem) o)
      ⊎ ((to_limits parse_cpus s ≡ err unsupported)
          × ((j : ℕ) (q : ℕ × ℕ)
              → get_elem? (offers fargate_cpu_to_mem) j ≡ some q
              → fits mem cpu q ≡ false))
unfolding to_limits
to_limits_decides parse_cpus s mem cpu fargate configured =
    elim (Option-cases (first_option mem cpu fargate_cpu_to_mem)) [
      | inl missing ↦ inr (
        rw (configured, fargate, limits_for-printed mem cpu, missing) refl,
        λ j q at.
            first_fit-none mem cpu (offers fargate_cpu_to_mem) j q
              (sym (first_option-first_fit mem cpu fargate_cpu_to_mem) ∙ missing) at,
      )
      | inr (o, found) ↦ inl (
        o,
        rw (configured, fargate, limits_for-printed mem cpu, found) refl,
        first_fit-IsFirstFit mem cpu (offers fargate_cpu_to_mem) o
            (sym (first_option-first_fit mem cpu fargate_cpu_to_mem) ∙ found),
      )
    ]
