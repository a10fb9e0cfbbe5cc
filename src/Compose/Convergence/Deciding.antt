-- ===== src/Compose/Convergence/Deciding.antt =====
-- What `ensureService` of local/compose/convergence.go does with the containers that it keeps.
use mathlib.Core.Path.{subst}
use compose_cli.Prelude.{
  ℕ, zero, suc, ◌+◌, ◌<◌, String, ◌≡◌, ap, Bool, false, not, ◌&&◌, ◌||◌, some, List, [], ◌∷◌, ◌++◌,
  arith, get_elem?, eqb, ◌==◌,
}
use compose_cli.Prelude.GoMap.{lookup}
use compose_cli.Prelude.Results.{ok, >>=-eq-ok}
use compose_cli.Compose.Types.{Container, ServiceConfig, label, text_or_empty, config_hash_label}
use compose_cli.Compose.Convergence.{
  Job, create, remove_surplus, recreate, restart, Notice, decide, decide_all,
}

-- The container's hash is another one than the service's, or the service is to be recreated.
unfoldable pub has_diverged : String → ServiceConfig → Container → Bool
has_diverged expected service c =
    not (label c config_hash_label == expected)
    || (text_or_empty (lookup "x-lifecycle" service.extensions) == "force_recreate")

unfoldable pub is_up : Container → Bool
is_up c = (c.state == "running") || ((c.state == "created") || (c.state == "restarting"))

abbrev pub recreates : List Job → ℕ → Bool
recreates [] i = false
recreates (create name number ∷ jobs) i = recreates jobs i
recreates (remove_surplus c ∷ jobs) i = recreates jobs i
recreates (recreate j ∷ jobs) i = eqb j i || recreates jobs i
recreates (restart j ∷ jobs) i = recreates jobs i

abbrev pub restarts : List Job → ℕ → Bool
restarts [] i = false
restarts (create name number ∷ jobs) i = restarts jobs i
restarts (remove_surplus c ∷ jobs) i = restarts jobs i
restarts (recreate j ∷ jobs) i = restarts jobs i
restarts (restart j ∷ jobs) i = eqb j i || restarts jobs i

recreates-append :
    (jobs more : List Job) (i : ℕ)
    → recreates (jobs ++ more) i ≡ (recreates jobs i || recreates more i)
recreates-append [] more i = ground arith
recreates-append (create name number ∷ jobs) more i = recreates-append jobs more i
recreates-append (remove_surplus c ∷ jobs) more i = recreates-append jobs more i
recreates-append (recreate j ∷ jobs) more i = ground (arith, recreates-append jobs more i)
recreates-append (restart j ∷ jobs) more i = recreates-append jobs more i

restarts-append :
    (jobs more : List Job) (i : ℕ)
    → restarts (jobs ++ more) i ≡ (restarts jobs i || restarts more i)
restarts-append [] more i = ground arith
restarts-append (create name number ∷ jobs) more i = restarts-append jobs more i
restarts-append (remove_surplus c ∷ jobs) more i = restarts-append jobs more i
restarts-append (recreate j ∷ jobs) more i = restarts-append jobs more i
restarts-append (restart j ∷ jobs) more i = ground (arith, restarts-append jobs more i)

some_injective : {A : Type 0} {a b : A} → some a ≡ some b → a ≡ b
some_injective e = cc

module _ (expected : String) (service : ServiceConfig) where
  -- One round starts jobs of its own number alone.
  decide_lem :
      (i k : ℕ) (c : Container) (jobs : List Job) (notices : List Notice)
      → decide expected service i c ≡ ok (jobs, notices)
      → (recreates jobs k ≡ (eqb i k && has_diverged expected service c))
        × (restarts jobs k ≡ (eqb i k && (not (has_diverged expected service c) && not (is_up c))))
  unfolding decide has_diverged is_up
  decide_lem i k c jobs notices e = ground arith

  decide_all-cons :
      (i : ℕ) (c : Container) (cs : List Container) (jobs : List Job) (notices : List Notice)
      → decide_all expected service i (c ∷ cs) ≡ ok (jobs, notices)
      → (first : List Job × List Notice) × (rest : List Job × List Notice) × (decide expected
            service i c
          ≡ ok first)
        × (decide_all expected service (suc i) cs ≡ ok rest)
        × (jobs ≡ first.0 ++ rest.0)
  unfolding decide_all
  decide_all-cons i c cs jobs notices e =
      let (first, now, more) = >>=-eq-ok (decide expected service i c) _ e in
      let (rest, later, both) = >>=-eq-ok (decide_all expected service (suc i) cs) _ more in
      (first, rest, now, later, cc both)

  -- The jobs of the rounds from `i` on have no smaller number.
  decide_all-later :
      (i k : ℕ) (cs : List Container) (jobs : List Job) (notices : List Notice)
      → decide_all expected service i cs ≡ ok (jobs, notices)
      → k < i
      → (recreates jobs k ≡ false) × (restarts jobs k ≡ false)
  decide_all-later i k [] jobs notices e earlier = unfold decide_all in ground arith
  decide_all-later i k (c ∷ cs) jobs notices e earlier =
      let (first, rest, now, later, both) = decide_all-cons i c cs jobs notices e in
      let (no_recreate, no_restart) =
        decide_all-later (suc i) k cs rest.0 rest.1 later (omega arith) in
      let (recreate_now, restart_now) = decide_lem i k c first.0 first.1 now in
      ground (
        arith,
        both,
        recreates-append first.0 rest.0 k,
        restarts-append first.0 rest.0 k,
        no_recreate,
        no_restart,
        recreate_now,
        restart_now,
      )

  -- A round recreates its container exactly if that has diverged, and restarts it exactly if it
  -- has not diverged and is neither running, created nor restarting.
  pub decide_all-at :
      (i k : ℕ) (c : Container) (cs : List Container) (jobs : List Job) (notices : List Notice)
      → decide_all expected service i cs ≡ ok (jobs, notices)
      → get_elem? cs k ≡ some c
      → (recreates jobs (i + k) ≡ has_diverged expected service c)
        × (restarts jobs (i + k) ≡ (not (has_diverged expected service c) && not (is_up c)))
  decide_all-at i k c [] jobs notices e at = absurd (cc at)
  decide_all-at i zero c (d ∷ cs) jobs notices e at =
      let (first, rest, now, later, both) = decide_all-cons i d cs jobs notices e in
      let (no_recreate, no_restart) =
        decide_all-later (suc i) (i + 0) cs rest.0 rest.1 later (omega arith) in
      let (recreate_now, restart_now) =
        decide_lem i (i + 0) c first.0 first.1
          (subst (λ x. decide expected service i x ≡ ok first) (some_injective at) now) in
      ground (
        arith,
        both,
        recreates-append first.0 rest.0 (i + 0),
        restarts-append first.0 rest.0 (i + 0),
        no_recreate,
        no_restart,
        recreate_now,
        restart_now,
      )
  decide_all-at i (suc k) c (d ∷ cs) jobs notices e at =
      let (first, rest, now, later, both) = decide_all-cons i d cs jobs notices e in
      let (recreate_later, restart_later) = decide_all-at (suc i) k c cs rest.0 rest.1 later at in
      let (recreate_now, restart_now) = decide_lem i (i + suc k) d first.0 first.1 now in
      let same : suc i + k ≡ i + suc k = omega arith in
      ground (
        arith,
        both,
        recreates-append first.0 rest.0 (i + suc k),
        restarts-append first.0 rest.0 (i + suc k),
        ap (recreates rest.0) same,
        ap (restarts rest.0) same,
        recreate_later,
        restart_later,
        recreate_now,
        restart_now,
      )
