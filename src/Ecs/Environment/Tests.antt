-- ===== src/Ecs/Environment/Tests.antt =====
-- A service with an environment file and two variables of its own.
use compose_cli.Prelude.{String, ◌≡◌, refl, Option, none, some, List, [], ◌∷◌, map}
use compose_cli.Prelude.GoMap.{GoMap, lookup, insert}
use compose_cli.Prelude.Results.{ok}
use compose_cli.Ecs.Environment.{
  load_entries, load_files, add_own, pairs_of, insert_sorted, sort_pairs, create_environment,
}
use compose_cli.Ecs.Environment.Shared.{parsed, shared, chosen, create_environment-shared}

abbrev database : List (String × String)
database = ("DB_USER", "alice") ∷ ("DB_HOST", "db") ∷ []

abbrev own : GoMap (Option String)
own = ("DB_HOST", some "localhost") ∷ ("DEBUG", none) ∷ []

-- The user is the host of the file.
create_environment_result :
    create_environment {E = String} (map parsed (database ∷ [])) own
    ≡ ok (("DB_HOST", "localhost") ∷ ("DB_USER", "db") ∷ ("DEBUG", "") ∷ [])
unfolding create_environment load_files load_entries add_own pairs_of sort_pairs insert_sorted
    insert
create_environment_result = refl

create_environment-shared_example :
    (pairs : GoMap String) × (create_environment {E = String} (map parsed (database ∷ [])) own
      ≡ ok pairs)
    × ((k : String) → lookup k pairs ≡ chosen (lookup k own) (shared k (database ∷ []) none))
unfolding lookup
create_environment-shared_example = create_environment-shared (database ∷ []) own (refl, (refl, tt))
