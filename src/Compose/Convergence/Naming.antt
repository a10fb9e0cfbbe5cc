-- ===== src/Compose/Convergence/Naming.antt =====
-- The containers that `ensureScale` of local/compose/convergence.go creates: their numbers are new
-- and their names differ.
use text.Mathlib.TextLemmas.{append_cancel_left}
use compose_cli.Prelude.{
  ℕ, zero, suc, ◌+◌, ◌-◌, ◌^◌, ◌≤◌, ◌<◌, String, ◌≡◌, refl, sym, ◌∙◌, true, false, List, [], ◌∷◌,
  arith, length, ltb, eq_iff, ==-false,
}
use compose_cli.Prelude.Results.{ok}
use Prim.Native.String.{◌++◌ as ◌⊕◌}
use compose_cli.Go.Ints.{ℤ, pos, add_int}
use compose_cli.Go.Strconv.{itoa_int, itoa_injective}
use compose_cli.Compose.Util.{contains}
use compose_cli.Compose.Types.{Container, ServiceConfig}
use compose_cli.Compose.Convergence.{
  next_container_number, get_container_name, get_scale, Job, create, remove_surplus, recreate,
  restart, create_missing, ensure_scale,
}
use compose_cli.Compose.Convergence.Scaling.{ensure_scale_grows}

abbrev pub created_names : List Job → List String
created_names [] = []
created_names (create name number ∷ jobs) = name ∷ created_names jobs
created_names (remove_surplus c ∷ jobs) = created_names jobs
created_names (recreate i ∷ jobs) = created_names jobs
created_names (restart i ∷ jobs) = created_names jobs

abbrev pub AreDistinct : List String → Type 0
AreDistinct [] = Unit
AreDistinct (t ∷ ts) = (contains ts t ≡ false) × AreDistinct ts

numbered_name : String → ServiceConfig → ℤ → String
numbered_name project_name service number =
    project_name ⊕ ("_" ⊕ (service.name ⊕ ("_" ⊕ itoa_int number)))

get_container_name_lem :
    (project_name : String) (service : ServiceConfig) (number : ℤ)
    → service.container_name ≡ ""
    → get_container_name project_name service number ≡ numbered_name project_name service number
unfolding get_container_name numbered_name
get_container_name_lem project_name service number unnamed =
    ground (arith, eq_iff service.container_name "")

-- Without a custom name, the name of a container determines its number.
get_container_name_injective :
    (project_name : String) (service : ServiceConfig) (m n : ℕ)
    → service.container_name ≡ ""
    → get_container_name project_name service (pos m)
      ≡ get_container_name project_name service (pos n)
    → m ≡ n
unfolding numbered_name itoa_int
get_container_name_injective project_name service m n unnamed e =
    let same =
      sym (get_container_name_lem project_name service (pos m) unnamed)
      ∙ e
      ∙ get_container_name_lem project_name service (pos n) unnamed in
    itoa_injective m n (
      append_cancel_left "_" _ _ (
        append_cancel_left service.name _ _
          (append_cancel_left "_" _ _ (append_cancel_left project_name _ _ same))))

number_lem : (n i : ℕ) → n + i < 2 ^ 63 → add_int (pos n) i ≡ pos (n + i)
number_lem n i small = ground arith

module _ (project_name : String) (service : ServiceConfig) (unnamed : service.container_name ≡ "")
    (n : ℕ) where
  absent :
      (i missing j : ℕ)
      → j < i
      → n + (i + missing) < 2 ^ 63
      → contains
          (created_names (create_missing project_name service (pos n) i missing))
          (get_container_name project_name service (pos (n + j)))
        ≡ false
  unfolding create_missing contains
  absent i zero j earlier small = refl
  absent i (suc missing) j earlier small =
      let here = number_lem n i (omega arith) in
      let other = get_container_name_injective project_name service (n + i) (n + j) unnamed in
      rw here (
        rw
          (==-false (get_container_name project_name service (pos (n + i)))
            (get_container_name project_name service (pos (n + j))) (λ e. omega (arith, other e)))
          (absent (suc i) missing j (omega arith) (omega arith)))

  distinct :
      (i missing : ℕ)
      → n + (i + missing) < 2 ^ 63
      → AreDistinct (created_names (create_missing project_name service (pos n) i missing))
  unfolding create_missing
  distinct i zero small = tt
  distinct i (suc missing) small = (
    rw (number_lem n i (omega arith)) (absent (suc i) missing i (omega arith) (omega arith)),
    distinct (suc i) missing (omega arith),
  )

-- A service that is scaled past one has no custom name.
scaled_unnamed :
    (service : ServiceConfig) (scale : ℕ)
    → get_scale service ≡ ok (pos scale)
    → 1 < scale
    → service.container_name ≡ ""
unfolding get_scale
scaled_unnamed service scale e many = ground (arith, eq_iff service.container_name "")

alone : (t : String) → AreDistinct (t ∷ [])
unfolding contains
alone t = (refl, tt)

module _ (project_name : String) (service : ServiceConfig) (actual kept : List Container)
    (scale n : ℕ) (jobs : List Job) (scale_given : get_scale service ≡ ok (pos scale))
    (scaled : ensure_scale project_name service actual (pos scale) ≡ ok (jobs, kept))
    (short : ltb (length actual) scale ≡ true)
    (numbered : next_container_number actual ≡ ok (pos n)) (fits : n + scale < 2 ^ 63) where
  made : jobs ≡ create_missing project_name service (pos n) 0 (scale - length actual)
  made =
      let (next, same, jobs_are, _) =
        ensure_scale_grows project_name service actual kept scale jobs scaled short in
      cc (same, numbered, jobs_are)

  names_distinct :
      (missing : ℕ)
      → missing ≤ scale
      → AreDistinct (created_names (create_missing project_name service (pos n) 0 missing))
  unfolding create_missing
  names_distinct zero few = tt
  names_distinct (suc zero) few = alone _
  names_distinct (suc (suc missing)) few =
      distinct project_name service (scaled_unnamed service scale scale_given (omega arith)) n 0
        (suc (suc missing)) (omega arith)

  -- Where the scale is the one that `getScale` returns, the containers that one call of
  -- `ensureScale` creates have different names, provided that their numbers fit an int.
  pub created_distinct : AreDistinct (created_names jobs)
  created_distinct = rw made (names_distinct (scale - length actual) (omega arith))
