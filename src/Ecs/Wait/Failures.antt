-- ===== src/Ecs/Wait/Failures.antt =====
-- When the loop of ecs/wait.go returns an error.
use compose_cli.Prelude.{
  String, ◌≡◌, refl, sym, ap, ◌∙◌, Bool, true, false, not, ◌&&◌, ◌||◌, ◌⊎◌, not_both, inl, inr,
  Bool-cases, Option, none, some, List, [], ◌∷◌, All, arith, eq_iff, ltb, ◌==◌, if◌then◌else◌,
}
use compose_cli.Prelude.GoMap.{has}
use compose_cli.Ecs.Wait.{
  StackEvent, EventIds, Waiting, insert_by_time, sort_events, is_failure, failed_error, report,
  report_all,
}
use compose_cli.Ecs.Wait.Reports.{report-known}

abbrev pub is_some : Option String → Bool
is_some none = false
is_some (some t) = true

-- The event is one of the operation and has failed.
abbrev pub has_failed : EventIds → StackEvent → Bool
has_failed ignored e = not (has e.event_id ignored) && is_failure e.status

unfoldable pub any_failed : EventIds → List StackEvent → Bool
any_failed ignored [] = false
any_failed ignored (e ∷ events) = has_failed ignored e || any_failed ignored events

or_swap : (b c d : Bool) {r : Bool} → r ≡ (c || d) → (b || r) ≡ (c || (b || d))
or_swap b c d e = ground (arith, e)

any_failed-insert_by_time :
    (ignored : EventIds) (e : StackEvent) (events : List StackEvent)
    → any_failed ignored (insert_by_time e events)
      ≡ (has_failed ignored e || any_failed ignored events)
unfolding any_failed insert_by_time
any_failed-insert_by_time ignored e [] = refl
any_failed-insert_by_time ignored e (f ∷ events) = elim (Bool-cases (ltb f.timestamp e.timestamp)) [
  | inl before ↦ rw before (
      or_swap (has_failed ignored f) (has_failed ignored e) (any_failed ignored events)
        (any_failed-insert_by_time ignored e events))
  | inr after ↦ rw after refl
]

pub any_failed-sort_events :
    (ignored : EventIds) (events : List StackEvent)
    → any_failed ignored (sort_events events) ≡ any_failed ignored events
unfolding sort_events any_failed
any_failed-sort_events ignored [] = refl
any_failed-sort_events ignored (e ∷ events) =
    any_failed-insert_by_time ignored e (sort_events events)
    ∙ ap (λ b. has_failed ignored e || b) (any_failed-sort_events ignored events)

pub or_assoc : (b c d : Bool) → ((b || c) || d) ≡ (b || (c || d))
or_assoc b c d = ground arith

is_some-failed_error : (o : Option String) (t : String) → is_some (failed_error o t) ≡ true
is_some-failed_error none t = refl
is_some-failed_error (some u) t = refl

or_failed :
    (b ignored fails : Bool) → ignored ≡ false → fails ≡ true → (b || (not ignored && fails)) ≡ true
or_failed b ignored fails e f = ground (arith, e, f)

known_table :
    (there ignored fails : Bool)
    → (ignored ≡ false → fails ≡ true → there ≡ true)
    → there ≡ (there || (not ignored && fails))
known_table true ignored fails errs = refl
known_table false true fails errs = refl
known_table false false true errs = errs refl refl
known_table false false false errs = refl

new_table :
    (ignored fails : Bool) (o : Option String) (t : String)
    → ignored ≡ false
    → is_some (if fails then failed_error o t else o) ≡ (is_some o || (not ignored && fails))
new_table ignored true o t e = is_some-failed_error o t ∙ ground (arith, e)
new_table ignored false o t e = ground (arith, e)

module _ (to_camel_case errorf : String → String) (status_of : String → String)
    (ignored : EventIds) where
  -- An event always has the same status.
  abbrev pub HasStatus : StackEvent → Type 0
  HasStatus e = e.status ≡ status_of e.event_id

  -- The ignored events are known, and if a known one of the others has failed there is an error.
  abbrev pub IsInformed : Waiting → Type 0
  IsInformed w =
      ((k : String) → has k ignored ≡ true → has k w.known_events ≡ true)
      × ((k : String)
          → has k w.known_events ≡ true
          → has k ignored ≡ false
          → is_failure (status_of k) ≡ true
          → is_some w.stack_err ≡ true)

  report-error :
      (w : Waiting) (e : StackEvent)
      → HasStatus e
      → IsInformed w
      → is_some (report to_camel_case errorf w e).stack_err
        ≡ (is_some w.stack_err || has_failed ignored e)
  report-error w e status (knows, errs) = elim (Bool-cases (has e.event_id w.known_events)) [
    | inl known ↦ rw known (
        known_table (is_some w.stack_err) (has e.event_id ignored) (is_failure e.status)
          (λ apart fails. errs e.event_id known apart (sym (ap is_failure status) ∙ fails)))
    | inr new ↦ rw new (
        new_table (has e.event_id ignored) (is_failure e.status) w.stack_err (errorf e.reason)
          (not_ignored new (Bool-cases (has e.event_id ignored))))
  ]
    where
      not_ignored :
          has e.event_id w.known_events ≡ false
          → (has e.event_id ignored ≡ true) ⊎ (has e.event_id ignored ≡ false)
          → has e.event_id ignored ≡ false
      not_ignored new (inl there) = absurd (not_both (knows e.event_id there) new)
      not_ignored new (inr apart) = apart

  report-IsInformed :
      (w : Waiting) (e : StackEvent)
      → HasStatus e
      → IsInformed w
      → IsInformed (report to_camel_case errorf w e)
  report-IsInformed w e status (knows, errs) = (
    (λ k there. report-known to_camel_case errorf w e k ∙ ground (arith, knows k there)),
    λ k known apart fails.
        report-error w e status (knows, errs) ∙ (elim (Bool-cases (e.event_id == k)) [
          | inl same ↦
              or_failed (is_some w.stack_err) (has e.event_id ignored) (is_failure e.status)
                (ap (λ j. has j ignored) ((eq_iff e.event_id k).0 same) ∙ apart)
                (ap is_failure (status ∙ ap status_of ((eq_iff e.event_id k).0 same)) ∙ fails)
          | inr other ↦
              ap (λ b. b || has_failed ignored e)
                (errs k
                  (sym (rw other refl) ∙ sym (report-known to_camel_case errorf w e k) ∙ known)
                  apart fails)
        ]),
  )

  pub report_all-error :
      (w : Waiting) (events : List StackEvent)
      → All HasStatus events
      → IsInformed w
      → (is_some (report_all to_camel_case errorf w events).stack_err
          ≡ (is_some w.stack_err || any_failed ignored events))
        × IsInformed (report_all to_camel_case errorf w events)
  unfolding report_all any_failed
  report_all-error w [] all informed = (ground arith, informed)
  report_all-error w (e ∷ events) (of_e, all) informed =
      let (error, informed_after) =
        report_all-error (report to_camel_case errorf w e) events all
          (report-IsInformed w e of_e informed) in
      (
        error
            ∙ rw (report-error w e of_e informed)
                (or_assoc (is_some w.stack_err) (has_failed ignored e) (any_failed ignored events)),
        informed_after,
      )
