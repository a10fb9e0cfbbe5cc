-- ===== src/Cli/Metrics/Privacy.antt =====
-- What `GetCommand` of cli/metrics/metrics.go tells of a command line.
use Prim.Native.String.{◌++◌ as text_append}
use compose_cli.Prelude.{
  String, ◌≡◌, refl, sym, ap, ◌∙◌, Bool, true, false, not, ◌&&◌, ◌||◌, inl, inr, Bool-cases, Option,
  none, some, Option-cases, List, [], ◌∷◌, ◌++◌, All, All-append, arith, eq_iff, ◌==◌,
}
use compose_cli.Go.Strings.{join}
use compose_cli.Go.Spaces.{
  trim_space, is_word, has_no_space, is_space, IsWord, words, trim_space-last, trim_space-first,
}
use compose_cli.Cli.Metrics.Commands.{command_flags, management_commands, commands}
use compose_cli.Cli.Metrics.{
  string_contains, is_management_command, is_command, is_command_flag, next_command,
  get_command_from, get_command,
}

-- A word that the metrics know.
unfoldable pub is_known : String → Bool
is_known w = (w == "--help") || (is_command_flag w || is_command w)

both : (b c : Bool) → (b && c) ≡ true → (b ≡ true) × (c ≡ true)
both true true e = (refl, refl)
both true false e = cc
both false c e = cc

all_words : List String → Bool
all_words [] = true
all_words (w ∷ ws) = is_word w && all_words ws

contained-IsWord :
    (array : List String) (w : String)
    → all_words array ≡ true
    → string_contains array w ≡ true
    → IsWord w
unfolding all_words string_contains
contained-IsWord [] w all h = cc
contained-IsWord (v ∷ array) w all h =
    let (of_v, rest) = both (is_word v) (all_words array) all in
    elim (Bool-cases (v == w)) [
      | inl same ↦ ap is_word (sym ((eq_iff v w).0 same)) ∙ of_v
      | inr other ↦ contained-IsWord array w rest (sym (rw other refl) ∙ h)
    ]

is_known-IsWord : (w : String) → is_known w ≡ true → IsWord w
unfolding is_known is_command_flag is_command is_management_command all_words
is_known-IsWord w h = elim (Bool-cases (w == "--help")) [
  | inl help ↦ ap is_word ((eq_iff w "--help").0 help) ∙ (unfold is_space has_no_space in refl)
  | inr other ↦ elim (Bool-cases (string_contains command_flags w)) [
    | inl flag ↦ contained-IsWord command_flags w (unfold is_space has_no_space in refl) flag
    | inr no_flag ↦ elim (Bool-cases (string_contains commands w)) [
      | inl command ↦ contained-IsWord commands w (unfold is_space has_no_space in refl) command
      | inr no_command ↦
          contained-IsWord management_commands w (unfold is_space has_no_space in refl)
            (sym (rw other (rw no_flag (rw no_command refl))) ∙ h)
    ]
  ]
]

-- A word of the command line that the metrics know.
abbrev pub IsTold : List String → String → Type 0
IsTold args w = (is_known w ≡ true) × (string_contains args w ≡ true)

All-IsWord : (args ws : List String) → All (IsTold args) ws → All IsWord ws
All-IsWord args [] told = tt
All-IsWord args (w ∷ ws) (of_w, told) = (is_known-IsWord w of_w.0, All-IsWord args ws told)

-- What a round leaves is again told words.
abbrev IsToldText : List String → String → Type 0
IsToldText args result = (ws : List String) × (result ≡ words ws) × All (IsTold args) ws

leaves : {A : Type 0} {a b : A} {o : Option A} → o ≡ some b → o ≡ some a → b ≡ a
leaves e f = cc

ends : {A : Type 0} {a : A} {o : Option A} → o ≡ some a → o ≡ none → ⊥
ends e f = cc

any_flags :
    (flag only command : Bool) → (flag || (not only && command)) ≡ true → (flag || command) ≡ true
any_flags flag only command e = ground (arith, e)

next_command-IsToldText :
    (args : List String) (result : String) (only_flags : Bool) (arg : String) (next : String × Bool)
    → string_contains args arg ≡ true
    → IsToldText args result
    → next_command result only_flags arg ≡ some next
    → IsToldText args next.0
unfolding next_command is_known
next_command-IsToldText args result only_flags arg next given (ws, is_ws, told) e =
    elim (Bool-cases (arg == "--help")) [
      | inl help ↦ (
        arg ∷ ws,
        ap (λ p. p.0)
              (leaves {a = (trim_space (text_append arg (text_append " " result)), only_flags)} e
                (rw help refl))
            ∙ ap (λ t. trim_space (text_append arg (text_append " " t))) is_ws
            ∙ trim_space-first ws arg (All-IsWord args ws told)
                (is_known-IsWord arg (rw help refl)),
        ((rw help refl, given), told),
      )
      | inr other ↦ elim (Bool-cases (arg == "--")) [
        | inl dashes ↦ absurd (ends e (rw other (rw dashes refl)))
        | inr goes_on ↦
            elim (Bool-cases (is_command_flag arg || (not only_flags && is_command arg))) [
              | inl added ↦ (
                ws ++ arg ∷ [],
                ap (λ p. p.0)
                      (leaves
                        {a = (
                          trim_space (text_append result (text_append " " arg)),
                          only_flags || (is_command arg && not (is_management_command arg)),
                        )}
                        e (rw other (rw goes_on (rw added refl))))
                    ∙ ap (λ t. trim_space (text_append t (text_append " " arg))) is_ws
                    ∙ trim_space-last ws arg (All-IsWord args ws told) (
                        is_known-IsWord arg (
                          rw other
                            (any_flags (is_command_flag arg) only_flags (is_command arg) added))),
                All-append (IsTold args) ws (arg ∷ []) told (
                  (
                    rw other (any_flags (is_command_flag arg) only_flags (is_command arg) added),
                    given,
                  ),
                  tt,
                ),
              )
              | inr skipped ↦ (
                ws,
                ap (λ p. p.0)
                      (leaves {a = (result, only_flags)} e
                        (rw other (rw goes_on (rw skipped refl))))
                    ∙ is_ws,
                told,
              )
            ]
      ]
    ]

get_command_from-IsToldText :
    (all args : List String) (result : String) (only_flags : Bool)
    → All (λ arg. string_contains all arg ≡ true) args
    → IsToldText all result
    → IsToldText all (get_command_from result only_flags args)
unfolding get_command_from
get_command_from-IsToldText all [] result only_flags given told = told
get_command_from-IsToldText all (arg ∷ args) result only_flags (of_arg, given) told =
    elim (Option-cases (next_command result only_flags arg)) [
      | inl ends ↦ rw (ends, get_command_from) told
      | inr (next, goes_on) ↦
          rw (goes_on, get_command_from)
            (get_command_from-IsToldText all args next.0 next.1 given
              (next_command-IsToldText all result only_flags arg next of_arg told goes_on))
    ]

contained-cons :
    (a : String) (args words_of : List String)
    → All (λ arg. string_contains args arg ≡ true) words_of
    → All (λ arg. string_contains (a ∷ args) arg ≡ true) words_of
unfolding string_contains
contained-cons a args [] all = tt
contained-cons a args (w ∷ words_of) (of_w, all) =
    (ground (arith, of_w), contained-cons a args words_of all)

self_contained : (args : List String) → All (λ arg. string_contains args arg ≡ true) args
self_contained [] = tt
self_contained (a ∷ args) = (
  unfold string_contains in rw ((eq_iff a a).1 refl) refl,
  contained-cons a args args (self_contained args),
)

-- What is told of a command line are words of it that the metrics know, with spaces between:
-- commands, flags of commands and --help, and no other argument.
pub get_command-IsTold :
    (args : List String)
    → (ws : List String) × (get_command args ≡ join " " ws) × All (IsTold args) ws
unfolding get_command
get_command-IsTold args =
    get_command_from-IsToldText args args "" false (self_contained args)
      ([], unfold join in refl, tt)
