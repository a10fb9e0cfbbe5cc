-- ===== src/Ecs/Environment/Shared.antt =====
-- The files of `createEnvironment` of ecs/convert.go: which text each name has in the end.
use mathlib.Core.Option
use compose_cli.Prelude.{
  ℕ, zero, suc, ◌<◌, String, ◌≡◌, refl, sym, ap, ◌∙◌, Option-cases, inl, inr, Option, none, some,
  List, [], ◌∷◌, ◌++◌, map, length, length-append, get_elem?, arith,
}
use compose_cli.Prelude.GoMap.{GoMap, IsMap, lookup}
use compose_cli.Prelude.Results.{Result, ok}
use compose_cli.Ecs.Environment.{
  Pointer, to_variable, to_text, nil_pointer, Loading, load_entries, last_value, load_files,
  pointer_to, add_own, text_at, dereferenced, pairs_of, sort_pairs, create_environment,
}
use compose_cli.Ecs.Environment.Lookup.{
  lookup-sort_pairs, lookup-pairs_of, pairs_of-IsMap, add_own-IsMap, load_entries-IsMap,
  lookup-add_own, lookup-load_entries, or_else,
}

-- The last value of the last file that has the name, or else the given one.
abbrev pub shared : String → List (List (String × String)) → Option String → Option String
shared k [] before = before
shared k (entries ∷ files) before =
    shared k files
      (elim (lookup k entries) [ none ↦ before | some v ↦ some (last_value "" entries) ])

abbrev load_one : List (String × String) → Loading → Loading
load_one entries l = record {
  environment = load_entries (length l.variables) entries l.environment;
  variables = l.variables ++ last_value "" entries ∷ [];
}

abbrev load_all : List (List (String × String)) → Loading → Loading
load_all [] l = l
load_all (entries ∷ files) l = load_all files (load_one entries l)

abbrev pub parsed : {E : Type 0} → List (String × String) → Result E (List (String × String))
parsed entries = ok entries

load_files-load_all :
    {E : Type 0} (files : List (List (String × String))) (l : Loading)
    → load_files {E = E} (map parsed files) l ≡ ok (load_all files l)
unfolding load_files
load_files-load_all [] l = refl
load_files-load_all (entries ∷ files) l = load_files-load_all files (load_one entries l)

-- Each entry follows a variable that is there.
abbrev IsInRange : Loading → Type 0
IsInRange l =
    (k : String) (file : ℕ)
    → lookup k l.environment ≡ some (to_variable file)
    → file < length l.variables

abbrev value_of : String → Loading → Option String
value_of k l = Option.map (dereferenced l.variables) (lookup k l.environment)

get_elem?-append_left :
    (xs ys : List String) (i : ℕ) → i < length xs → get_elem? (xs ++ ys) i ≡ get_elem? xs i
get_elem?-append_left [] ys i h = absurd (omega arith)
get_elem?-append_left (x ∷ xs) ys zero h = refl
get_elem?-append_left (x ∷ xs) ys (suc i) h = get_elem?-append_left xs ys i (omega arith)

get_elem?-append_length :
    (xs : List String) (y : String) → get_elem? (xs ++ y ∷ []) (length xs) ≡ some y
get_elem?-append_length [] y = refl
get_elem?-append_length (x ∷ xs) y = get_elem?-append_length xs y

-- A pointer that is in range sees the same text after another variable is made.
dereferenced-append :
    (variables more : List String) (p : Pointer)
    → ((file : ℕ) → p ≡ to_variable file → file < length variables)
    → dereferenced (variables ++ more) p ≡ dereferenced variables p
dereferenced-append variables more (to_variable file) range =
    ap text_at (get_elem?-append_left variables more file (range file refl))
dereferenced-append variables more (to_text t) range = refl
dereferenced-append variables more nil_pointer range = refl

-- A name that the file does not have, and one that it has.
kept :
    (k : String) (entries : List (String × String)) (l : Loading)
    → lookup k entries ≡ none
    → lookup k (load_one entries l).environment ≡ lookup k l.environment
kept k entries l missing =
    lookup-load_entries k (length l.variables) entries l.environment ∙ rw missing refl

taken :
    (k v : String) (entries : List (String × String)) (l : Loading)
    → lookup k entries ≡ some v
    → lookup k (load_one entries l).environment ≡ some (to_variable (length l.variables))
taken k v entries l here =
    lookup-load_entries k (length l.variables) entries l.environment ∙ rw here refl

variable_injective : {i j : ℕ} → some (to_variable i) ≡ some (to_variable j) → i ≡ j
variable_injective e = cc

load_one-IsInRange :
    (entries : List (String × String)) (l : Loading) → IsInRange l → IsInRange (load_one entries l)
load_one-IsInRange entries l range k file found = elim (Option-cases (lookup k entries)) [
  | inl missing ↦ omega (
    arith,
    length-append l.variables (last_value "" entries ∷ []),
    range k file (sym (kept k entries l missing) ∙ found),
  )
  | inr (v, here) ↦ omega (
    arith,
    length-append l.variables (last_value "" entries ∷ []),
    variable_injective (sym (taken k v entries l here) ∙ found),
  )
]

map-dereferenced :
    (l : Loading) (more : List String) (o : Option Pointer)
    → ((file : ℕ) → o ≡ some (to_variable file) → file < length l.variables)
    → Option.map (dereferenced (l.variables ++ more)) o ≡ Option.map (dereferenced l.variables) o
map-dereferenced l more none range = refl
map-dereferenced l more (some p) range =
    ap some (dereferenced-append l.variables more p (λ file e. range file (ap some e)))

value_of-load_one :
    (k : String) (entries : List (String × String)) (l : Loading)
    → IsInRange l
    → value_of k (load_one entries l)
      ≡ (elim (lookup k entries) [ none ↦ value_of k l | some v ↦ some (last_value "" entries) ])
value_of-load_one k entries l range = elim (Option-cases (lookup k entries)) [
  | inl missing ↦ rw missing (
      ap (Option.map (dereferenced (load_one entries l).variables)) (kept k entries l missing)
      ∙ map-dereferenced l (last_value "" entries ∷ []) (lookup k l.environment)
          (λ file. range k file))
  | inr (v, here) ↦ rw here (
      ap (Option.map (dereferenced (load_one entries l).variables)) (taken k v entries l here)
      ∙ ap (λ o. some (text_at o)) (get_elem?-append_length l.variables (last_value "" entries)))
]

value_of-load_all :
    (k : String) (files : List (List (String × String))) (l : Loading)
    → IsInRange l
    → value_of k (load_all files l) ≡ shared k files (value_of k l)
value_of-load_all k [] l range = refl
value_of-load_all k (entries ∷ files) l range =
    value_of-load_all k files (load_one entries l) (load_one-IsInRange entries l range)
    ∙ ap (shared k files) (value_of-load_one k entries l range)

load_all-IsMap :
    (files : List (List (String × String))) (l : Loading)
    → IsMap l.environment
    → IsMap (load_all files l).environment
load_all-IsMap [] l distinct = distinct
load_all-IsMap (entries ∷ files) l distinct =
    load_all-IsMap files (load_one entries l)
      (load_entries-IsMap (length l.variables) entries l.environment distinct)

abbrev pub nothing_loaded : Loading
nothing_loaded = record { environment = []; variables = [] }

-- The own text of the service, or else what the files leave.
abbrev pub chosen : Option (Option String) → Option String → Option String
chosen none from_files = from_files
chosen (some v) from_files = some (text_at v)

map-or_else :
    (variables : List String) (own : Option (Option String)) (o : Option Pointer)
    → Option.map (dereferenced variables) (or_else (Option.map pointer_to own) o)
      ≡ chosen own (Option.map (dereferenced variables) o)
map-or_else variables none o = refl
map-or_else variables (some none) o = refl
map-or_else variables (some (some t)) o = refl

-- Each name has its text in the service's own environment, the empty one where that gives none. A
-- name that the service does not give has, of the last file that has the name, not its own value
-- but that of the entry which comes last in the range over the file. Conditions: the files are
-- parsed, and no name stands twice in the service's environment.
pub create_environment-shared :
    {E : Type 0} (files : List (List (String × String))) (own : GoMap (Option String))
    → IsMap own
    → (pairs : GoMap String) × (create_environment {E = E} (map parsed files) own ≡ ok pairs)
      × ((k : String) → lookup k pairs ≡ chosen (lookup k own) (shared k files none))
unfolding create_environment lookup
create_environment-shared files own distinct = (
  sort_pairs (pairs_of loaded.variables (add_own own loaded.environment)),
  rw (load_files-load_all files nothing_loaded) refl,
  λ k.
      lookup-sort_pairs k (pairs_of loaded.variables (add_own own loaded.environment)) (
        pairs_of-IsMap loaded.variables (add_own own loaded.environment)
          (add_own-IsMap own loaded.environment (load_all-IsMap files nothing_loaded tt)))
      ∙ lookup-pairs_of k loaded.variables (add_own own loaded.environment)
      ∙ ap (Option.map (dereferenced loaded.variables))
          (lookup-add_own k own loaded.environment distinct)
      ∙ map-or_else loaded.variables (lookup k own) (lookup k loaded.environment)
      ∙ ap (chosen (lookup k own))
          (value_of-load_all k files nothing_loaded (λ j file found. absurd (ground arith))),
)
  where
    loaded : Loading
    loaded = load_all files nothing_loaded
