-- ===== src/Compose/Mounts/Binds.antt =====
-- The binds of named volumes in local/compose/create.go.
use Prim.Native.String.{◌++◌ as text_append}
use text.Mathlib.TextLemmas.{nil-append, cons-append, append_assoc}
use compose_cli.Prelude.{
  String, ◌≡◌, ◌≢◌, refl, sym, ap, ◌∙◌, ◌⊎◌, inl, inr, Bool, true, not, ◌&&◌, Bool-cases, List, [],
  ◌∷◌, All, arith, eq_iff, ==-false, ◌==◌,
}
use compose_cli.Go.Strings.{has_suffix}
use compose_cli.Compose.Util.{contains}
use compose_cli.Compose.Mounts.{Mount, binds_of}

abbrev pub IsMounted : Mount → List Mount → Type 0
IsMounted m [] = ⊥
IsMounted m (n ∷ mounts) = (m ≡ n) ⊎ IsMounted m mounts

has_suffix_refl : (s : String) → has_suffix s s ≡ true
unfolding has_suffix
has_suffix_refl String.[] = (eq_iff String.[] String.[]).1 refl
has_suffix_refl (String.◌∷◌ c s) = rw ((eq_iff (String.◌∷◌ c s) (String.◌∷◌ c s)).1 refl) refl

has_suffix-append : (s suffix : String) → has_suffix (text_append s suffix) suffix ≡ true
unfolding has_suffix
has_suffix-append String.[] suffix =
    ap (λ t. has_suffix t suffix) (nil-append suffix) ∙ has_suffix_refl suffix
has_suffix-append (String.◌∷◌ c s) suffix =
    ap (λ t. has_suffix t suffix) (cons-append c s suffix)
    ∙ ground (arith, has_suffix-append s suffix)

-- The bind of a volume to a target, for reading and writing.
abbrev pub writable_bind : String → String → String
writable_bind source target = text_append (text_append source (text_append ":" target)) ":rw"

bind-writable :
    (source target : String)
    → text_append source (text_append ":" (text_append target ":rw")) ≡ writable_bind source target
bind-writable source target = sym (
    append_assoc source (text_append ":" target) ":rw"
    ∙ ap (text_append source) (append_assoc ":" target ":rw"))

-- A volume with a name.
abbrev is_named_volume : Mount → Bool
is_named_volume m = (m.type == "volume") && not (m.source == "")

contained_later :
    (v item : String) (slice : List String)
    → contains slice item ≡ true
    → contains (v ∷ slice) item ≡ true
unfolding contains
contained_later v item slice h = ground (arith, h)

contained_first : (item : String) (slice : List String) → contains (item ∷ slice) item ≡ true
unfolding contains
contained_first item slice = rw ((eq_iff item item).1 refl) refl

named_volume : (m : Mount) → m.type ≡ "volume" → m.source ≢ "" → is_named_volume m ≡ true
named_volume m of_type named =
    rw ((eq_iff m.type "volume").1 of_type) (rw (==-false m.source "" named) refl)

binds_of-contains :
    (mounts : List Mount) (m : Mount)
    → IsMounted m mounts
    → is_named_volume m ≡ true
    → contains (binds_of mounts) (writable_bind m.source m.target) ≡ true
unfolding binds_of
binds_of-contains [] m mounted named = elim mounted [ ]
binds_of-contains (n ∷ mounts) m (inl same) named = rw (sym (ap is_named_volume same) ∙ named) (
    ap (λ bind. contains (bind ∷ binds_of mounts) (writable_bind m.source m.target))
      (bind-writable n.source n.target
        ∙ sym (ap (λ (k : Mount). writable_bind k.source k.target) same))
    ∙ contained_first (writable_bind m.source m.target) (binds_of mounts))
binds_of-contains (n ∷ mounts) m (inr later) named = elim (Bool-cases (is_named_volume n)) [
  | inl volume ↦ rw volume (
      contained_later _ (writable_bind m.source m.target) (binds_of mounts)
        (binds_of-contains mounts m later named))
  | inr other ↦ rw other (binds_of-contains mounts m later named)
]

binds_of-has_suffix :
    (mounts : List Mount) → All (λ bind. has_suffix bind ":rw" ≡ true) (binds_of mounts)
unfolding binds_of
binds_of-has_suffix [] = tt
binds_of-has_suffix (n ∷ mounts) = elim (Bool-cases (is_named_volume n)) [
  | inl volume ↦ rw volume (
    ap (λ bind. has_suffix bind ":rw") (bind-writable n.source n.target)
        ∙ has_suffix-append (text_append n.source (text_append ":" n.target)) ":rw",
    binds_of-has_suffix mounts,
  )
  | inr other ↦ rw other (binds_of-has_suffix mounts)
]

-- Every mount of a named volume becomes a bind that is for reading and writing, whether or not the
-- mount is read-only, and no bind has another mode.
pub binds_of-writable :
    (mounts : List Mount)
    → ((m : Mount)
        → IsMounted m mounts
        → m.type ≡ "volume"
        → m.source ≢ ""
        → contains (binds_of mounts) (writable_bind m.source m.target) ≡ true)
      × All (λ bind. has_suffix bind ":rw" ≡ true) (binds_of mounts)
binds_of-writable mounts = (
  λ m mounted of_type named. binds_of-contains mounts m mounted (named_volume m of_type named),
  binds_of-has_suffix mounts,
)
