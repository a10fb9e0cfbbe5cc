-- ===== src/Aci/Volumes/Specified.antt =====
-- The texts that `parse` of aci/convert/volume.go takes for a volume.
use Prim.Native.String.{◌++◌ as text_append}
use mathlib.Core.Path.{subst}
use compose_cli.Prelude.{
  String, ◌≡◌, ◌≢◌, ◌↔◌, ◌⊎◌, refl, sym, ap, ◌∙◌, Bool, true, false, inl, inr, Bool-cases, List, [],
  ◌∷◌, All, eq_iff, ==-false, not_same_text, ◌==◌,
}
use compose_cli.Prelude.Results.{Result, ok, >>=-eq-ok}
use compose_cli.Go.Strings.{split, join, IsFree, join-split, split-IsFree, split-join}
use compose_cli.Aci.Volumes.{
  VolumeInput, VolumeError, parse_source, parse_target, parse_tokens, parse,
}

-- `account/share`, with neither empty and no other slash.
pub record IsSource (source account share : String) : Type 0 where
  pub written : source ≡ join "/" (account ∷ share ∷ [])
  pub has_account : account ≢ ""
  pub has_share : share ≢ ""
  pub account_free : IsFree "/" account
  pub share_free : IsFree "/" share

abbrev pub mode_text : Bool → String
mode_text true = "ro"
mode_text false = "rw"

module _ (to_lower : String → String) where
  -- What follows the source, with the target and whether it is read-only.
  pub data IsRest (share : String) : List String → String → Bool → Type 0 where
    source_only : IsRest share [] (text_append "/run/volumes/" share) false
    with_target : (target : String) → IsRest share (target ∷ []) target false
    with_mode :
        (target mode : String) (read_only : Bool)
        → to_lower mode ≡ mode_text read_only
        → IsRest share (target ∷ mode ∷ []) target read_only

  -- The texts of the source and of the rest with colons between, none of which has a colon.
  pub record IsSpecified (candidate : String) (v : VolumeInput) : Type 0 where
    pub source : String
    pub rest : List String
    pub written : candidate ≡ join ":" (source ∷ rest)
    pub free : All (IsFree ":") (source ∷ rest)
    pub of_source : IsSource source v.storage_account v.fileshare
    pub of_rest : IsRest v.fileshare rest v.target v.readonly

pub ok_injective : {A : Type 0} {a b : A} → ◌≡◌ {A = Result VolumeError A} (ok a) (ok b) → a ≡ b
ok_injective e = cc

parse_source-IsSource :
    (candidate source account share : String)
    → parse_source candidate (split "/" source) ≡ ok (account, share)
    → IsSource source account share
parse_source-IsSource candidate source account share good =
    of_tokens (split "/" source) (join-split "/" source) (split-IsFree "/" source) good
  where
    of_two :
        (t u : String)
        → join "/" (t ∷ u ∷ []) ≡ source
        → IsFree "/" t
        → IsFree "/" u
        → parse_source candidate (t ∷ u ∷ []) ≡ ok (account, share)
        → (t == "" ≡ true) ⊎ (t == "" ≡ false)
        → (u == "" ≡ true) ⊎ (u == "" ≡ false)
        → IsSource source account share
    of_two t u joined free_t free_u e (inl empty) other = cc
    of_two t u joined free_t free_u e (inr filled) (inl empty) = cc
    of_two t u joined free_t free_u e (inr filled) (inr filled_u) =
        subst (λ p. IsSource source p.0 p.1) (ok_injective (sym (rw filled (rw filled_u refl)) ∙ e))
          (record {
            written = sym joined;
            has_account = not_same_text t "" filled;
            has_share = not_same_text u "" filled_u;
            account_free = free_t;
            share_free = free_u;
          })

    of_tokens :
        (tokens : List String)
        → join "/" tokens ≡ source
        → All (IsFree "/") tokens
        → parse_source candidate tokens ≡ ok (account, share)
        → IsSource source account share
    of_tokens [] joined free e = cc
    of_tokens (t ∷ []) joined free e = cc
    of_tokens (t ∷ u ∷ []) joined (free_t, (free_u, free)) e =
        of_two t u joined free_t free_u e (Bool-cases (t == "")) (Bool-cases (u == ""))
    of_tokens (t ∷ u ∷ w ∷ tokens) joined free e = cc

parse_source-of_IsSource :
    (candidate source account share : String)
    → IsSource source account share
    → parse_source candidate (split "/" source) ≡ ok (account, share)
parse_source-of_IsSource candidate source account share s =
    ap (λ t. parse_source candidate (split "/" t)) s.written
    ∙ ap (parse_source candidate)
        (split-join "/" account (share ∷ []) (s.account_free, (s.share_free, tt)))
    ∙ rw (==-false account "" s.has_account) (rw (==-false share "" s.has_share) refl)

parse_target-IsRest :
    (to_lower : String → String) (candidate share : String) (rest : List String) (target : String)
    (read_only : Bool)
    → parse_target to_lower candidate share rest ≡ ok (target, read_only)
    → IsRest to_lower share rest target read_only
parse_target-IsRest to_lower candidate share [] target read_only good =
    subst (λ p. IsRest to_lower share [] p.0 p.1) (ok_injective good) source_only
parse_target-IsRest to_lower candidate share (t ∷ []) target read_only good =
    subst (λ p. IsRest to_lower share (t ∷ []) p.0 p.1) (ok_injective good) (with_target t)
parse_target-IsRest to_lower candidate share (t ∷ m ∷ []) target read_only good =
    elim (Bool-cases (to_lower m == "ro")) [
      | inl ro ↦
          subst (λ p. IsRest to_lower share (t ∷ m ∷ []) p.0 p.1)
            (ok_injective (sym (rw ro refl) ∙ good))
            (with_mode t m true ((eq_iff (to_lower m) "ro").0 ro))
      | inr other ↦ elim (Bool-cases (to_lower m == "rw")) [
        | inl rw_mode ↦
            subst (λ p. IsRest to_lower share (t ∷ m ∷ []) p.0 p.1)
              (ok_injective (sym (rw other (rw rw_mode refl)) ∙ good))
              (with_mode t m false ((eq_iff (to_lower m) "rw").0 rw_mode))
        | inr neither ↦ absurd cc
      ]
    ]
parse_target-IsRest to_lower candidate share (t ∷ m ∷ w ∷ rest) target read_only good = cc

parse_target-of_IsRest :
    (to_lower : String → String) (candidate share : String) (rest : List String) (target : String)
    (read_only : Bool)
    → IsRest to_lower share rest target read_only
    → parse_target to_lower candidate share rest ≡ ok (target, read_only)
parse_target-of_IsRest to_lower candidate share rest target read_only source_only = refl
parse_target-of_IsRest to_lower candidate share rest target read_only (with_target t) = refl
parse_target-of_IsRest to_lower candidate share rest target read_only (with_mode t m true e) =
    rw e refl
parse_target-of_IsRest to_lower candidate share rest target read_only (with_mode t m false e) =
    rw e refl

parse_tokens-IsSpecified :
    (to_lower : String → String) (volume_name candidate : String) (v : VolumeInput)
    (tokens : List String)
    → join ":" tokens ≡ candidate
    → All (IsFree ":") tokens
    → parse_tokens to_lower volume_name candidate tokens ≡ ok v
    → (v.name ≡ volume_name) × IsSpecified to_lower candidate v
parse_tokens-IsSpecified to_lower volume_name candidate v [] joined free good = cc
parse_tokens-IsSpecified to_lower volume_name candidate v (source ∷ rest) joined free good =
    let (parts, of_parts, then_rest) =
      >>=-eq-ok (parse_source candidate (split "/" source)) _ good in
    let (last, of_last, is_v) =
      >>=-eq-ok (parse_target to_lower candidate parts.1 rest) _ then_rest in
    subst (λ w. (w.name ≡ volume_name) × IsSpecified to_lower candidate w) (ok_injective is_v)
      (
        refl,
        record {
          source = source;
          rest = rest;
          written = sym joined;
          free = free;
          of_source = parse_source-IsSource candidate source parts.0 parts.1 of_parts;
          of_rest = parse_target-IsRest to_lower candidate parts.1 rest last.0 last.1 of_last;
        },
      )

-- The code takes exactly the texts that are specified: `account/share`, then optionally a colon and
-- a target, then optionally a colon and a mode that in lower case is ro or rw. The account and the
-- share are not empty, the target may be.
pub parse-IsSpecified :
    (to_lower : String → String) (volume_name candidate : String) (v : VolumeInput)
    → (parse to_lower volume_name candidate ≡ ok v)
      ↔ ((v.name ≡ volume_name) × IsSpecified to_lower candidate v)
unfolding parse
parse-IsSpecified to_lower volume_name candidate v = (
  parse_tokens-IsSpecified to_lower volume_name candidate v (split ":" candidate)
      (join-split ":" candidate) (split-IsFree ":" candidate),
  λ given.
      ap (parse_tokens to_lower volume_name candidate)
        (ap (split ":") given.1.written ∙ split-join ":" given.1.source given.1.rest given.1.free)
      ∙ rw
          (parse_source-of_IsSource candidate given.1.source v.storage_account v.fileshare
            given.1.of_source)
          (rw
            (parse_target-of_IsRest to_lower candidate v.fileshare given.1.rest v.target v.readonly
              given.1.of_rest)
            (rw given.0 refl)),
)
