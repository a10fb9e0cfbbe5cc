-- ===== src/Go/Spaces.antt =====
-- `strings.TrimSpace`, for texts of ASCII.
use Prim.Native.Char.{Char, code}
use Prim.Native.String.{◌++◌ as text_append}
use text.Mathlib.TextLemmas.{cons≢nil, nil-append, cons-append, append-nil, append_assoc}
use compose_cli.Prelude.{
  String, ◌≡◌, refl, sym, ap, ◌∙◌, Bool, true, false, not, ◌&&◌, ◌||◌, List, [], ◌∷◌, ◌++◌, All,
  All-append, ==-false, eqb, leb, ◌==◌, if◌then◌else◌,
}
use compose_cli.Go.Strings.{join}

unfoldable pub is_space : Char → Bool
is_space c = eqb (code c) 32 || (leb 9 (code c) && leb (code c) 13)

unfoldable pub trim_left : String → String
trim_left String.[] = String.[]
trim_left (String.◌∷◌ c s) = if is_space c then trim_left s else String.◌∷◌ c s

unfoldable pub trim_right : String → String
trim_right String.[] = String.[]
trim_right (String.◌∷◌ c s) =
    let rest = trim_right s in
    if is_space c && (rest == String.[]) then String.[] else String.◌∷◌ c rest

unfoldable pub trim_space : String → String
trim_space s = trim_right (trim_left s)

unfoldable pub has_no_space : String → Bool
has_no_space String.[] = true
has_no_space (String.◌∷◌ c s) = not (is_space c) && has_no_space s

-- Not empty, and without white space.
abbrev pub is_word : String → Bool
is_word String.[] = false
is_word (String.◌∷◌ c s) = not (is_space c) && has_no_space s

abbrev pub IsWord : String → Type 0
IsWord w = is_word w ≡ true

both : (b c : Bool) → (b && c) ≡ true → (b ≡ true) × (c ≡ true)
both true true e = (refl, refl)
both true false e = cc
both false c e = cc

false_of : (b : Bool) → not b ≡ true → b ≡ false
false_of true e = cc
false_of false e = refl

trim_right-append :
    (w t : String)
    → has_no_space w ≡ true
    → trim_right (text_append w t) ≡ text_append w (trim_right t)
unfolding trim_right has_no_space
trim_right-append String.[] t h = ap trim_right (nil-append t) ∙ sym (nil-append (trim_right t))
trim_right-append (String.◌∷◌ c w) t h =
    let (visible, rest) = both (not (is_space c)) (has_no_space w) h in
    ap trim_right (cons-append c w t)
    ∙ rw (false_of (is_space c) visible) (ap (String.◌∷◌ c) (trim_right-append w t rest))
    ∙ sym (cons-append c w (trim_right t))

IsWord-has_no_space : (w : String) → IsWord w → has_no_space w ≡ true
unfolding has_no_space
IsWord-has_no_space String.[] h = cc
IsWord-has_no_space (String.◌∷◌ c w) h = h

-- The space is the separator.
abbrev pub words : List String → String
words ws = join " " ws

filled : (c : Char) (s : String) → (String.◌∷◌ c s == String.[]) ≡ false
filled c s = ==-false (String.◌∷◌ c s) String.[] cons≢nil

append-filled : (w t : String) → IsWord w → (text_append w t == String.[]) ≡ false
append-filled String.[] t h = cc
append-filled (String.◌∷◌ c w) t h =
    ap (λ s. s == String.[]) (cons-append c w t) ∙ filled c (text_append w t)

trim_right-IsWord :
    (w t : String) → IsWord w → trim_right (text_append w t) ≡ text_append w (trim_right t)
trim_right-IsWord w t h = trim_right-append w t (IsWord-has_no_space w h)

-- A space after a word goes, if nothing else follows.
pub trim_right-nil : (w : String) → IsWord w → trim_right (text_append w " ") ≡ w
trim_right-nil w h = trim_right-IsWord w " " h ∙ (unfold trim_right is_space in append-nil w)

trim_right-space :
    (s : String)
    → trim_right s ≡ s
    → (s == String.[]) ≡ false
    → trim_right (String.◌∷◌ " " s) ≡ String.◌∷◌ " " s
unfolding trim_right
trim_right-space s e more = rw e (rw more (unfold is_space in refl))

trim_right-words :
    (w : String) (ws : List String)
    → All IsWord (w ∷ ws)
    → (trim_right (words (w ∷ ws)) ≡ words (w ∷ ws)) × ((words (w ∷ ws) == String.[]) ≡ false)
unfolding join
trim_right-words w [] (of_w, all) = (
  ap trim_right (sym (append-nil w))
      ∙ trim_right-IsWord w String.[] of_w
      ∙ (unfold trim_right in append-nil w),
  ap (λ s. s == String.[]) (sym (append-nil w)) ∙ append-filled w String.[] of_w,
)
trim_right-words w (v ∷ ws) (of_w, all) =
    let (same, more) = trim_right-words v ws all in
    (
      trim_right-IsWord w (String.◌∷◌ " " (words (v ∷ ws))) of_w
          ∙ ap (text_append w) (trim_right-space (words (v ∷ ws)) same more),
      append-filled w (String.◌∷◌ " " (words (v ∷ ws))) of_w,
    )

trim_left-append : (w t : String) → IsWord w → trim_left (text_append w t) ≡ text_append w t
unfolding trim_left
trim_left-append String.[] t h = cc
trim_left-append (String.◌∷◌ c w) t h =
    ap trim_left (cons-append c w t)
    ∙ rw (false_of (is_space c) (both (not (is_space c)) (has_no_space w) h).0) refl
    ∙ sym (cons-append c w t)

trim_left-words :
    (w : String) (ws : List String) → IsWord w → trim_left (words (w ∷ ws)) ≡ words (w ∷ ws)
unfolding join
trim_left-words w [] h =
    ap trim_left (sym (append-nil w)) ∙ trim_left-append w String.[] h ∙ append-nil w
trim_left-words w (v ∷ ws) h = trim_left-append w (String.◌∷◌ " " (words (v ∷ ws))) h

trim_space-words :
    (w : String) (ws : List String)
    → All IsWord (w ∷ ws)
    → trim_space (words (w ∷ ws)) ≡ words (w ∷ ws)
unfolding trim_space
trim_space-words w ws (of_w, all) =
    ap trim_right (trim_left-words w ws of_w) ∙ (trim_right-words w ws (of_w, all)).0

words-append :
    (w : String) (ws : List String) (v : String)
    → text_append (words (w ∷ ws)) (String.◌∷◌ " " v) ≡ words (w ∷ (ws ++ v ∷ []))
unfolding join
words-append w [] v = refl
words-append w (u ∷ ws) v =
    append_assoc w (String.◌∷◌ " " (words (u ∷ ws))) (String.◌∷◌ " " v)
    ∙ ap (text_append w) (
        cons-append " " (words (u ∷ ws)) (String.◌∷◌ " " v)
        ∙ ap (String.◌∷◌ " ") (words-append u ws v))

space_then : (t : String) → text_append " " t ≡ String.◌∷◌ " " t
space_then t = cons-append " " String.[] t ∙ ap (String.◌∷◌ " ") (nil-append t)

trim_space-leading : (s : String) → trim_space (String.◌∷◌ " " s) ≡ trim_space s
unfolding trim_space trim_left is_space
trim_space-leading s = refl

-- Another word at the end, and one at the start.
pub trim_space-last :
    (ws : List String) (v : String)
    → All IsWord ws
    → IsWord v
    → trim_space (text_append (words ws) (text_append " " v)) ≡ words (ws ++ v ∷ [])
unfolding join
trim_space-last [] v all of_v =
    ap trim_space (nil-append (text_append " " v) ∙ space_then v)
    ∙ trim_space-leading v
    ∙ trim_space-words v [] (of_v, tt)
trim_space-last (w ∷ ws) v (of_w, all) of_v =
    ap (λ t. trim_space (text_append (words (w ∷ ws)) t)) (space_then v)
    ∙ ap trim_space (words-append w ws v)
    ∙ trim_space-words w (ws ++ v ∷ []) (of_w, All-append IsWord ws (v ∷ []) all (of_v, tt))

trim_space-trailing : (w : String) → IsWord w → trim_space (text_append w " ") ≡ w
unfolding trim_space
trim_space-trailing w h = ap trim_right (trim_left-append w " " h) ∙ trim_right-nil w h

pub trim_space-first :
    (ws : List String) (v : String)
    → All IsWord ws
    → IsWord v
    → trim_space (text_append v (text_append " " (words ws))) ≡ words (v ∷ ws)
unfolding join
trim_space-first [] v all of_v =
    ap (λ t. trim_space (text_append v t)) (space_then String.[]) ∙ trim_space-trailing v of_v
trim_space-first (w ∷ ws) v all of_v =
    ap (λ t. trim_space (text_append v t)) (space_then (words (w ∷ ws)))
    ∙ trim_space-words v (w ∷ ws) (of_v, all)
