-- ===== src/Compose/Convergence/Service.antt =====
-- `ensureService` of local/compose/convergence.go as a whole.
use mathlib.Core.Path.{subst}
use compose_cli.Prelude.{
  ℕ, ◌+◌, String, ◌≡◌, ◌⊎◌, refl, sym, not, ◌&&◌, Option, none, some, inl, inr, Option-cases, List,
  [], ◌∷◌, ◌++◌, arith, length, get_elem?,
}
use compose_cli.Prelude.Results.{Result, ok, err}
use compose_cli.Go.Ints.{ℤ, pos, negsuc}
use compose_cli.Compose.Types.{Container, ServiceConfig, Project}
use compose_cli.Compose.Containers.{filter, is_service}
use compose_cli.Compose.Convergence.{
  get_scale, Job, ensure_scale, decide_all, Started, converge_kept, ensure_service,
}
use compose_cli.Compose.Convergence.Selection.{IsSelection, filter-IsSelection}
use compose_cli.Compose.Convergence.Scaling.{creations, removals, ensure_scale_lem}
use compose_cli.Compose.Convergence.Deciding.{
  has_diverged, is_up, recreates, restarts, decide_all-at,
}

Result-cases : {E A : Type 0} (r : Result E A) → ((a : A) × (r ≡ ok a)) ⊎ ((e : E) × (r ≡ err e))
Result-cases (ok a) = inl (a, refl)
Result-cases (err e) = inr (e, refl)

zero_plus : (k : ℕ) → 0 + k ≡ k
zero_plus k = omega arith

module _ (json_hash : ServiceConfig → Option String) (observed : List Container) (project : Project)
    (service : ServiceConfig) where
  -- What is started for the service: the kept and the created containers are as many as its scale,
  -- the kept and the removed ones are those observed containers of the project that are labelled with
  -- the service, in their order, and a job to recreate is started in exactly the rounds of the kept
  -- containers that have diverged, one to restart in exactly those of the ones that have not and are
  -- down. On which container such a job acts depends on when it reads the variable of the loop.
  pub record IsConvergence (s : Started) : Type 0 where
    pub scale : ℕ
    pub expected : String
    pub scale_given : get_scale service ≡ ok (pos scale)
    pub hash_given : json_hash service ≡ some expected
    pub count : length s.kept + creations s.scaling ≡ scale
    pub conserved : IsSelection service.name (s.kept ++ removals s.scaling) observed
    pub recreated :
        (k : ℕ) (c : Container)
        → get_elem? s.kept k ≡ some c
        → recreates s.decided k ≡ has_diverged expected service c
    pub restarted :
        (k : ℕ) (c : Container)
        → get_elem? s.kept k ≡ some c
        → restarts s.decided k ≡ (not (has_diverged expected service c) && not (is_up c))

  abbrev actual : List Container
  actual = filter observed (is_service (service.name ∷ []))

  converge_kept-IsConvergence :
      (scale : ℕ) (jobs : List Job) (kept : List Container)
      → get_scale service ≡ ok (pos scale)
      → ensure_scale project.name service actual (pos scale) ≡ ok (jobs, kept)
      → (converge_kept json_hash service jobs kept).fault ≡ none
      → IsConvergence (converge_kept json_hash service jobs kept)
  unfolding converge_kept
  converge_kept-IsConvergence scale jobs kept given scaled fine =
      elim (Option-cases (json_hash service)) [
        | inl unhashed ↦ absurd (cc (rw (unhashed, converge_kept) at fine))
        | inr (expected, hashed) ↦ elim (Result-cases (decide_all expected service 0 kept)) [
          | inr (e, failed) ↦ absurd (cc (rw (hashed, failed, converge_kept) at fine))
          | inl ((decided, notices), good) ↦
              let (count, conserved) =
                ensure_scale_lem project.name service actual kept scale jobs scaled in
              rw (hashed, good, converge_kept)
                (record {
                  scale = scale;
                  expected = expected;
                  scale_given = given;
                  hash_given = hashed;
                  count = count;
                  conserved =
                      subst (λ own. IsSelection service.name own observed) (sym conserved)
                        (filter-IsSelection service.name observed);
                  recreated = λ k c at.
                      subst (λ j. recreates decided j ≡ has_diverged expected service c)
                        (zero_plus k)
                        (decide_all-at expected service 0 k c kept decided notices good at).0;
                  restarted = λ k c at.
                      subst
                        (λ j.
                          restarts decided j
                          ≡ (not (has_diverged expected service c) && not (is_up c)))
                        (zero_plus k)
                        (decide_all-at expected service 0 k c kept decided notices good at).1;
                })
        ]
      ]

  from_scale :
      (scale : ℤ)
      → get_scale service ≡ ok scale
      → (ensure_service json_hash observed project service).fault ≡ none
      → IsConvergence (ensure_service json_hash observed project service)
  unfolding ensure_service
  from_scale (negsuc n) given fine =
      absurd (unfold ensure_scale in cc (rw (given, ensure_service, ensure_scale) at fine))
  from_scale (pos n) given fine =
      elim (Result-cases (ensure_scale project.name service actual (pos n))) [
        | inr (e, failed) ↦ absurd (cc (rw (given, failed, ensure_service) at fine))
        | inl ((jobs, kept), scaled) ↦
            rw (given, scaled, ensure_service)
              (converge_kept-IsConvergence n jobs kept given scaled
                (rw (given, scaled, ensure_service) at fine))
      ]

  -- If `ensureService` has no error, then the kept containers and those that it starts to create are as
  -- many as the scale of the service, and the kept and the removed ones are the containers of the
  -- project that are labelled with the service. In the round of a kept container it starts a job to
  -- recreate exactly if that container has diverged, and one to restart exactly if it has not and is
  -- down. On which container the job acts is not said.
  pub ensure_service-IsConvergence :
      (ensure_service json_hash observed project service).fault ≡ none
      → IsConvergence (ensure_service json_hash observed project service)
  unfolding ensure_service
  ensure_service-IsConvergence fine = elim (Result-cases (get_scale service)) [
    | inr (e, failed) ↦ absurd (cc (rw (failed, ensure_service) at fine))
    | inl (scale, given) ↦ from_scale scale given fine
  ]
