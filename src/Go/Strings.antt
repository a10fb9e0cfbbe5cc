-- ===== src/Go/Strings.antt =====
-- `strings.Split` with a separator of one character, and `strings.Join`.
use Prim.Native.Char.{Char}
use Prim.Native.String.{◌++◌ as text_append}
use text.Mathlib.TextLemmas.{nil-append, cons-append, head-eq_of_cons-eq}
use compose_cli.Prelude.{
  String, ◌≡◌, refl, sym, ap, ◌∙◌, Bool, true, false, inl, inr, Bool-cases, List, [], ◌∷◌, All,
  eq_iff, ◌==◌, if◌then◌else◌,
}

abbrev pub same_char : Char → Char → Bool
same_char c d = String.◌∷◌ c String.[] == String.◌∷◌ d String.[]

-- Put a character before the first of the texts.
abbrev pub before_first : Char → List String → List String
before_first c [] = []
before_first c (t ∷ texts) = String.◌∷◌ c t ∷ texts

unfoldable pub split : Char → String → List String
split separator String.[] = String.[] ∷ []
split separator (String.◌∷◌ c s) =
    let rest = split separator s in
    if same_char c separator then String.[] ∷ rest else before_first c rest

unfoldable pub join : Char → List String → String
join separator [] = String.[]
join separator (t ∷ []) = t
join separator (t ∷ u ∷ texts) = text_append t (String.◌∷◌ separator (join separator (u ∷ texts)))

-- The separator is not in the text.
abbrev pub IsFree : Char → String → Type 0
IsFree separator String.[] = Unit
IsFree separator (String.◌∷◌ c s) = (same_char c separator ≡ false) × IsFree separator s

same_char-eq : (c d : Char) → same_char c d ≡ true → c ≡ d
same_char-eq c d e =
    head-eq_of_cons-eq ((eq_iff (String.◌∷◌ c String.[]) (String.◌∷◌ d String.[])).0 e)

same_char_refl : (c : Char) → same_char c c ≡ true
same_char_refl c = (eq_iff (String.◌∷◌ c String.[]) (String.◌∷◌ c String.[])).1 refl

-- Texts of which there is one at least.
abbrev IsFilled : List String → Type 0
IsFilled [] = ⊥
IsFilled (t ∷ texts) = Unit

before_first-IsFilled :
    (c : Char) (texts : List String) → IsFilled texts → IsFilled (before_first c texts)
before_first-IsFilled c [] filled = elim filled [ ]
before_first-IsFilled c (t ∷ texts) filled = tt

pub split-IsFilled : (separator : Char) (s : String) → IsFilled (split separator s)
unfolding split
split-IsFilled separator String.[] = tt
split-IsFilled separator (String.◌∷◌ c s) = elim (Bool-cases (same_char c separator)) [
  | inl same ↦ rw same tt
  | inr other ↦ rw other (before_first-IsFilled c (split separator s) (split-IsFilled separator s))
]

join-before_first :
    (separator c : Char) (texts : List String)
    → IsFilled texts
    → join separator (before_first c texts) ≡ String.◌∷◌ c (join separator texts)
unfolding join
join-before_first separator c [] filled = elim filled [ ]
join-before_first separator c (t ∷ []) filled = refl
join-before_first separator c (t ∷ u ∷ texts) filled =
    cons-append c t (String.◌∷◌ separator (join separator (u ∷ texts)))

join-nil_first :
    (separator : Char) (texts : List String)
    → IsFilled texts
    → join separator (String.[] ∷ texts) ≡ String.◌∷◌ separator (join separator texts)
unfolding join
join-nil_first separator [] filled = elim filled [ ]
join-nil_first separator (t ∷ texts) filled =
    nil-append (String.◌∷◌ separator (join separator (t ∷ texts)))

pub join-split : (separator : Char) (s : String) → join separator (split separator s) ≡ s
unfolding split
join-split separator String.[] = unfold join in refl
join-split separator (String.◌∷◌ c s) = elim (Bool-cases (same_char c separator)) [
  | inl same ↦ rw same (
      join-nil_first separator (split separator s) (split-IsFilled separator s)
      ∙ ap (String.◌∷◌ separator) (join-split separator s)
      ∙ ap (λ d. String.◌∷◌ d s) (sym (same_char-eq c separator same)))
  | inr other ↦ rw other (
      join-before_first separator c (split separator s) (split-IsFilled separator s)
      ∙ ap (String.◌∷◌ c) (join-split separator s))
]

All-before_first :
    (separator c : Char) (texts : List String)
    → same_char c separator ≡ false
    → All (IsFree separator) texts
    → All (IsFree separator) (before_first c texts)
All-before_first separator c [] other free = tt
All-before_first separator c (t ∷ texts) other (free_t, free) = ((other, free_t), free)

pub split-IsFree : (separator : Char) (s : String) → All (IsFree separator) (split separator s)
unfolding split
split-IsFree separator String.[] = (tt, tt)
split-IsFree separator (String.◌∷◌ c s) = elim (Bool-cases (same_char c separator)) [
  | inl same ↦ rw same (tt, split-IsFree separator s)
  | inr other ↦
      rw other (All-before_first separator c (split separator s) other (split-IsFree separator s))
]

split-free : (separator : Char) (t : String) → IsFree separator t → split separator t ≡ t ∷ []
unfolding split
split-free separator String.[] free = refl
split-free separator (String.◌∷◌ c t) (other, free) =
    rw other (ap (before_first c) (split-free separator t free))

split-append :
    (separator : Char) (t s : String)
    → IsFree separator t
    → split separator (text_append t (String.◌∷◌ separator s)) ≡ t ∷ split separator s
unfolding split
split-append separator String.[] s free =
    rw (nil-append (String.◌∷◌ separator s)) (rw (same_char_refl separator) refl)
split-append separator (String.◌∷◌ c t) s (other, free) =
    ap (split separator) (cons-append c t (String.◌∷◌ separator s))
    ∙ rw other (ap (before_first c) (split-append separator t s free))

pub split-join :
    (separator : Char) (t : String) (texts : List String)
    → All (IsFree separator) (t ∷ texts)
    → split separator (join separator (t ∷ texts)) ≡ t ∷ texts
unfolding join
split-join separator t [] (free, all_free) = split-free separator t free
split-join separator t (u ∷ texts) (free, all_free) =
    split-append separator t (join separator (u ∷ texts)) free
    ∙ ap (◌∷◌ t) (split-join separator u texts all_free)

-- `strings.HasSuffix`
unfoldable pub has_suffix : String → String → Bool
has_suffix String.[] suffix = String.[] == suffix
has_suffix (String.◌∷◌ c s) suffix = if String.◌∷◌ c s == suffix then true else has_suffix s suffix
