-- ===== src/Ecs/Environment.antt =====
-- `createEnvironment` of ecs/convert.go: the environment of a task.
--
-- The map that the code fills holds pointers to texts. Where it stores the address of the variable
-- of a loop, the entry follows that variable: the variables are state, one for each file. A file
-- that is missing, cannot be opened or cannot be parsed has an error; the entries of the others
-- come in the order of the range over them.
pub mod Lookup
pub mod Shared
mod Tests
use Prim.Native.String.{compare}
use text.Mathlib.Text.{is_lt}
use compose_cli.Prelude.{
  ℕ, zero, suc, String, Bool, true, false, Option, none, some, List, [], ◌∷◌, ◌++◌, length,
  get_elem?, ◌==◌, if◌then◌else◌,
}
use compose_cli.Prelude.GoMap.{GoMap, lookup, insert}
use compose_cli.Prelude.Results.{Result, ok, err, ◌>>=◌}

-- The address of the variable of the loop over a file's entries, a text of the service, or nil.
pub data Pointer : Type 0 where
  to_variable : (file : ℕ) → Pointer
  to_text : String → Pointer
  nil_pointer : Pointer

pub record Loading : Type 0 where
  pub environment : GoMap Pointer
  pub variables : List String

-- `environment[k] = &v` for each entry.
unfoldable pub load_entries : ℕ → List (String × String) → GoMap Pointer → GoMap Pointer
load_entries file [] environment = environment
load_entries file ((k, v) ∷ entries) environment =
    load_entries file entries (insert k (to_variable file) environment)

-- What the variable `v` holds after the loop.
abbrev pub last_value : String → List (String × String) → String
last_value v [] = v
last_value v ((k, w) ∷ entries) = last_value w entries

unfoldable pub load_files :
    {E : Type 0} → List (Result E (List (String × String))) → Loading → Result E Loading
unfolding load_entries
load_files [] loading = ok loading
load_files (f ∷ files) loading = do
  env ← f
  load_files files (record {
    environment = load_entries (length loading.variables) env loading.environment;
    variables = loading.variables ++ last_value "" env ∷ [];
  })

abbrev pub pointer_to : Option String → Pointer
pointer_to none = nil_pointer
pointer_to (some t) = to_text t

-- The loop over the environment of the service.
unfoldable pub add_own : GoMap (Option String) → GoMap Pointer → GoMap Pointer
add_own [] environment = environment
add_own ((k, v) ∷ own) environment = add_own own (insert k (pointer_to v) environment)

abbrev pub text_at : Option String → String
text_at none = ""
text_at (some t) = t

abbrev pub dereferenced : List String → Pointer → String
dereferenced variables (to_variable file) = text_at (get_elem? variables file)
dereferenced variables (to_text t) = t
dereferenced variables nil_pointer = ""

-- The loop that makes the pairs of names and values.
unfoldable pub pairs_of : List String → GoMap Pointer → GoMap String
pairs_of variables [] = []
pairs_of variables ((k, v) ∷ environment) =
    (k, dereferenced variables v) ∷ pairs_of variables environment

-- sort.Slice by the names.
unfoldable pub insert_sorted : String → String → GoMap String → GoMap String
insert_sorted name value [] = (name, value) ∷ []
insert_sorted name value ((other, held) ∷ pairs) =
    if is_lt (compare name other)
    then (name, value) ∷ (other, held) ∷ pairs
    else (other, held) ∷ insert_sorted name value pairs

unfoldable pub sort_pairs : GoMap String → GoMap String
sort_pairs [] = []
sort_pairs ((name, value) ∷ pairs) = insert_sorted name value (sort_pairs pairs)

unfoldable pub create_environment :
    {E : Type 0}
    → List (Result E (List (String × String)))
    → GoMap (Option String)
    → Result E (GoMap String)
create_environment files own = do
  loading ← load_files files (record { environment = []; variables = [] })
  ok (sort_pairs (pairs_of loading.variables (add_own own loading.environment)))
