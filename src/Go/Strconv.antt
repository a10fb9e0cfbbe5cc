-- ===== src/Go/Strconv.antt =====
-- `strconv.Atoi` and `strconv.Itoa` (or %d) for numbers that are not negative.
use Prim.Native.Char.{Char, code}
use Prim.Native.String.{[], ◌∷◌, ◌++◌}
use text.Mathlib.TextLemmas.{nil-append, cons-append, cons≢nil, append-ne-nil_of_right_ne-nil}
use compose_cli.Prelude.{
  ℕ, zero, suc, ◌+◌, ◌-◌, ◌*◌, ◌/◌, ◌%◌, ◌^◌, ◌≤◌, ◌<◌, String, ◌≡◌, ◌≢◌, refl, sym, ◌∙◌, ap, Bool,
  true, false, ◌&&◌, ◌||◌, ◌==◌, Option, some, none, inl, inr, Bool-cases, arith, ltb, leb, eqb,
  if◌then◌else◌,
}
use compose_cli.Go.Ints.{ℤ, pos, negsuc}

abbrev pub is_digit : Char → Bool
is_digit c = leb b'0' (code c) && leb (code c) b'9'

-- The digits of a text after the number `n`.
unfoldable pub scan : ℕ → String → Option ℕ
scan n [] = some n
scan n (c ∷ s) = let rest = scan (n * 10 + (code c - b'0')) s in if is_digit c then rest else none

-- At least one digit, and nothing else.
unfoldable pub scan_all : String → Option ℕ
unfolding scan
scan_all [] = none
scan_all (c ∷ s) = scan 0 (c ∷ s)

abbrev pub in_range : Option ℕ → Option ℤ
in_range none = none
in_range (some n) = if ltb n (2 ^ 63) then some (pos n) else none

abbrev pub in_range_negated : Option ℕ → Option ℤ
in_range_negated none = none
in_range_negated (some zero) = some (pos 0)
in_range_negated (some (suc n)) = if ltb n (2 ^ 63) then some (negsuc n) else none

-- `none` is an error.
unfoldable pub atoi : String → Option ℤ
unfolding scan_all
atoi [] = none
atoi (c ∷ s) =
    if eqb (code c) b'-'
    then in_range_negated (scan_all s)
    else if eqb (code c) b'+'
    then in_range (scan_all s)
    else in_range (scan_all (c ∷ s))

abbrev digit : ℕ → String
digit zero = "0"
digit (suc zero) = "1"
digit (suc (suc zero)) = "2"
digit (suc (suc (suc zero))) = "3"
digit (suc (suc (suc (suc zero)))) = "4"
digit (suc (suc (suc (suc (suc zero))))) = "5"
digit (suc (suc (suc (suc (suc (suc zero)))))) = "6"
digit (suc (suc (suc (suc (suc (suc (suc zero))))))) = "7"
digit (suc (suc (suc (suc (suc (suc (suc (suc zero)))))))) = "8"
digit (suc (suc (suc (suc (suc (suc (suc (suc (suc n))))))))) = "9"

-- The decimal digits, the last one by `n % 10`. Each round divides by ten, so `n` rounds do.
digits : ℕ → ℕ → String
digits zero n = digit n
digits (suc fuel) n =
    let front = digits fuel (n / 10) in if ltb n 10 then digit n else front ++ digit (n % 10)

unfoldable pub itoa : ℕ → String
unfolding digits
itoa n = digits n n

-- %d of an int
unfoldable pub itoa_int : ℤ → String
itoa_int (pos n) = itoa n
itoa_int (negsuc n) = "-" ++ itoa (suc n)

itoa_1024 : itoa 1024 ≡ "1024"
unfolding itoa
itoa_1024 = refl

atoi_tests :
    (atoi "42" ≡ some (pos 42))
    × (atoi "-3" ≡ some (negsuc 2))
    × (atoi "" ≡ none)
    × (atoi "4x" ≡ none)
    × (atoi "9223372036854775808" ≡ none)
unfolding atoi
atoi_tests = (refl, refl, refl, refl, refl)

some_injective : {A : Type 0} {a b : A} → some a ≡ some b → a ≡ b
some_injective e = cc

scan-digit : (n d : ℕ) → d < 10 → scan n (digit d) ≡ some (n * 10 + d)
unfolding scan
scan-digit n zero small = ap some (omega arith)
scan-digit n (suc zero) small = ap some (omega arith)
scan-digit n (suc (suc zero)) small = ap some (omega arith)
scan-digit n (suc (suc (suc zero))) small = ap some (omega arith)
scan-digit n (suc (suc (suc (suc zero)))) small = ap some (omega arith)
scan-digit n (suc (suc (suc (suc (suc zero))))) small = ap some (omega arith)
scan-digit n (suc (suc (suc (suc (suc (suc zero)))))) small = ap some (omega arith)
scan-digit n (suc (suc (suc (suc (suc (suc (suc zero))))))) small = ap some (omega arith)
scan-digit n (suc (suc (suc (suc (suc (suc (suc (suc zero)))))))) small = ap some (omega arith)
scan-digit n (suc (suc (suc (suc (suc (suc (suc (suc (suc k))))))))) small = ap some (omega arith)

scan-append : (n m : ℕ) (s t : String) → scan n s ≡ some m → scan n (s ++ t) ≡ scan m t
unfolding scan
scan-append n m [] t e = rw nil-append (ap (λ k. scan k t) (some_injective e))
scan-append n m (c ∷ s) t e = elim (Bool-cases (is_digit c)) [
  | inl good ↦
      rw cons-append (rw good (scan-append (n * 10 + (code c - b'0')) m s t (rw good at e)))
  | inr bad ↦ absurd (cc (rw bad at e))
]

scan-digits : (fuel n : ℕ) → n ≤ fuel → scan 0 (digits fuel n) ≡ some n
unfolding digits
scan-digits zero n enough = scan-digit 0 n (omega arith) ∙ ap some (omega arith)
scan-digits (suc fuel) n enough = elim (Bool-cases (ltb n 10)) [
  | inl small ↦ rw small (scan-digit 0 n (ground arith) ∙ ap some (omega arith))
  | inr large ↦ rw large (
      scan-append 0 (n / 10) (digits fuel (n / 10)) (digit (n % 10))
        (scan-digits fuel (n / 10) (ground arith))
      ∙ scan-digit (n / 10) (n % 10) (omega arith)
      ∙ ap some (omega arith))
]

-- The decimal digits of a number are read back as that number.
pub scan-itoa : (n : ℕ) → scan 0 (itoa n) ≡ some n
unfolding itoa
scan-itoa n = scan-digits n n (omega arith)

pub itoa_injective : (m n : ℕ) → itoa m ≡ itoa n → m ≡ n
itoa_injective m n e = some_injective (sym (scan-itoa m) ∙ ap (scan 0) e ∙ scan-itoa n)

scan-sign : (c : Char) (s : String) (n : ℕ) → scan 0 (c ∷ s) ≡ some n → is_digit c ≡ true
unfolding scan
scan-sign c s n e = ground arith

atoi_unsigned :
    (t : String) (n : ℕ) → t ≢ [] → scan 0 t ≡ some n → n < 2 ^ 63 → atoi t ≡ some (pos n)
unfolding atoi
atoi_unsigned [] n some_text e small = absurd (some_text refl)
atoi_unsigned (c ∷ s) n some_text e small =
    let good = scan-sign c s n e in let in_int = ap in_range e in ground (arith, good, in_int)

digit-ne-nil : (d : ℕ) → digit d ≢ []
digit-ne-nil zero = cons≢nil
digit-ne-nil (suc zero) = cons≢nil
digit-ne-nil (suc (suc zero)) = cons≢nil
digit-ne-nil (suc (suc (suc zero))) = cons≢nil
digit-ne-nil (suc (suc (suc (suc zero)))) = cons≢nil
digit-ne-nil (suc (suc (suc (suc (suc zero))))) = cons≢nil
digit-ne-nil (suc (suc (suc (suc (suc (suc zero)))))) = cons≢nil
digit-ne-nil (suc (suc (suc (suc (suc (suc (suc zero))))))) = cons≢nil
digit-ne-nil (suc (suc (suc (suc (suc (suc (suc (suc zero)))))))) = cons≢nil
digit-ne-nil (suc (suc (suc (suc (suc (suc (suc (suc (suc k))))))))) = cons≢nil

digits-ne-nil : (fuel n : ℕ) → digits fuel n ≢ []
unfolding digits
digits-ne-nil zero n = digit-ne-nil n
digits-ne-nil (suc fuel) n = elim (Bool-cases (ltb n 10)) [
  | inl small ↦ rw small (digit-ne-nil n)
  | inr large ↦
      rw large (append-ne-nil_of_right_ne-nil (digits fuel (n / 10)) (digit-ne-nil (n % 10)))
]

-- `Atoi` reads back what `Itoa` printed, for every number that fits an int.
pub atoi-itoa : (n : ℕ) → n < 2 ^ 63 → atoi (itoa n) ≡ some (pos n)
atoi-itoa n small = atoi_unsigned (itoa n) n (unfold itoa in digits-ne-nil n n) (scan-itoa n) small

-- A number that is read fits an int.
pub atoi-lt : (t : String) (n : ℕ) → atoi t ≡ some (pos n) → n < 2 ^ 63
unfolding atoi
atoi-lt [] n e = cc
atoi-lt (c ∷ s) n e =
    ranged (eqb (code c) b'-') (eqb (code c) b'+') (scan_all s) (scan_all (c ∷ s)) e
  where
    ranged :
        (minus plus : Bool) (o o' : Option ℕ)
        → (if minus then in_range_negated o else if plus then in_range o else in_range o')
          ≡ some (pos n)
        → n < 2 ^ 63
    ranged true plus none o' e = cc
    ranged true plus (some zero) o' e = ground arith
    ranged true plus (some (suc k)) o' e = ground arith
    ranged false plus o o' e = ground arith

-- `strconv.ParseBool`, with `none` for an error.
abbrev pub parse_bool : String → Option Bool
parse_bool t =
    if (t == "1") || (t == "t") || (t == "T") || (t == "TRUE") || (t == "true") || (t == "True")
    then some true
    else if (t == "0")
        || (t == "f")
        || (t == "F")
        || (t == "FALSE")
        || (t == "false")
        || (t == "False")
    then some false
    else none
