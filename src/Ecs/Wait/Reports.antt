-- ===== src/Ecs/Wait/Reports.antt =====
-- The reports of the loop in ecs/wait.go when it polls again.
use compose_cli.Prelude.{
  String, ◌≡◌, refl, sym, ap, ◌∙◌, Bool, true, false, inl, inr, Bool-cases, List, [], ◌∷◌, All,
  arith, eq_iff, ltb, ◌==◌, if◌then◌else◌,
}
use compose_cli.Prelude.GoMap.{has, has-insert}
use compose_cli.Ecs.Wait.{
  StackEvent, EventIds, Waiting, insert_by_time, sort_events, report, report_all,
}

All-insert_by_time {ℓ} :
    (holds : StackEvent → Type ℓ) (e : StackEvent) (events : List StackEvent)
    → holds e
    → All holds events
    → All holds (insert_by_time e events)
unfolding insert_by_time
All-insert_by_time holds e [] of_e rest = (of_e, tt)
All-insert_by_time holds e (f ∷ events) of_e (of_f, rest) =
    elim (Bool-cases (ltb f.timestamp e.timestamp)) [
      | inl before ↦ rw before (of_f, All-insert_by_time holds e events of_e rest)
      | inr after ↦ rw after (of_e, (of_f, rest))
    ]

pub All-sort_events {ℓ} :
    (holds : StackEvent → Type ℓ) (events : List StackEvent)
    → All holds events
    → All holds (sort_events events)
unfolding sort_events
All-sort_events holds [] all = tt
All-sort_events holds (e ∷ events) (of_e, all) =
    All-insert_by_time holds e (sort_events events) of_e (All-sort_events holds events all)

-- The id is that of one of the events.
unfoldable pub has_id : String → List StackEvent → Bool
has_id k [] = false
has_id k (e ∷ events) = if e.event_id == k then true else has_id k events

has_id-insert_by_time :
    (k : String) (e : StackEvent) (events : List StackEvent)
    → has_id k (insert_by_time e events) ≡ (if e.event_id == k then true else has_id k events)
unfolding has_id insert_by_time
has_id-insert_by_time k e [] = refl
has_id-insert_by_time k e (f ∷ events) = ground (arith, has_id-insert_by_time k e events)

has_id-sort_events :
    (k : String) (events : List StackEvent) → has_id k (sort_events events) ≡ has_id k events
unfolding sort_events has_id
has_id-sort_events k [] = refl
has_id-sort_events k (e ∷ events) =
    has_id-insert_by_time k e (sort_events events) ∙ rw (has_id-sort_events k events) refl

-- The event's name is a key.
abbrev pub IsKnown : EventIds → StackEvent → Type 0
IsKnown known e = has e.event_id known ≡ true

All-IsKnown :
    (known : EventIds) (events : List StackEvent) (k : String)
    → All (IsKnown known) events
    → has_id k events ≡ true
    → has k known ≡ true
unfolding has_id
All-IsKnown known [] k all within = cc
All-IsKnown known (e ∷ events) k (of_e, all) within = elim (Bool-cases (e.event_id == k)) [
  | inl same ↦ ap (λ j. has j known) (sym ((eq_iff e.event_id k).0 same)) ∙ of_e
  | inr other ↦ All-IsKnown known events k all (sym (rw other refl) ∙ within)
]

All-implies :
    (known : EventIds) (earlier later : List StackEvent)
    → All (IsKnown known) (sort_events earlier)
    → All (λ e. has_id e.event_id earlier ≡ true) later
    → All (IsKnown known) later
All-implies known earlier [] all within = tt
All-implies known earlier (e ∷ later) all (of_e, within) = (
  All-IsKnown known (sort_events earlier) e.event_id all
      (has_id-sort_events e.event_id earlier ∙ of_e),
  All-implies known earlier later all within,
)

module _ (to_camel_case errorf : String → String) where
  pub report-known :
      (w : Waiting) (e : StackEvent) (k : String)
      → has k (report to_camel_case errorf w e).known_events
        ≡ (if e.event_id == k then true else has k w.known_events)
  report-known w e k =
      ground (arith, eq_iff e.event_id k, has-insert e.event_id k tt w.known_events)

  pub report_all-known :
      (w : Waiting) (events : List StackEvent) (k : String)
      → has k w.known_events ≡ true
      → has k (report_all to_camel_case errorf w events).known_events ≡ true
  unfolding report_all
  report_all-known w [] k known = known
  report_all-known w (e ∷ events) k known =
      report_all-known (report to_camel_case errorf w e) events k
        (report-known w e k ∙ (ground (arith, known)))

  report_all-IsKnown :
      (w : Waiting) (events : List StackEvent)
      → All (IsKnown (report_all to_camel_case errorf w events).known_events) events
  unfolding report_all
  report_all-IsKnown w [] = tt
  report_all-IsKnown w (e ∷ events) = (
    report_all-known (report to_camel_case errorf w e) events e.event_id
        (report-known w e e.event_id ∙ rw ((eq_iff e.event_id e.event_id).1 refl) refl),
    report_all-IsKnown (report to_camel_case errorf w e) events,
  )

  report_all-all_known :
      (w : Waiting) (events : List StackEvent)
      → All (IsKnown w.known_events) events
      → report_all to_camel_case errorf w events ≡ w
  unfolding report_all
  report_all-all_known w [] all = refl
  report_all-all_known w (e ∷ events) (known, all) = rw known (report_all-all_known w events all)

  -- An answer of AWS which has only events that were in an earlier answer, in whatever order,
  -- changes nothing: no event is reported twice, and none makes an error later.
  pub report_all-polled :
      (w : Waiting) (earlier later : List StackEvent)
      → All (λ e. has_id e.event_id earlier ≡ true) later
      → report_all to_camel_case errorf
          (report_all to_camel_case errorf w (sort_events earlier))
          (sort_events later)
        ≡ report_all to_camel_case errorf w (sort_events earlier)
  report_all-polled w earlier later within =
      report_all-all_known (report_all to_camel_case errorf w (sort_events earlier))
        (sort_events later)
        (All-sort_events
          (IsKnown (report_all to_camel_case errorf w (sort_events earlier)).known_events) later
          (All-implies (report_all to_camel_case errorf w (sort_events earlier)).known_events
            earlier later (report_all-IsKnown w (sort_events earlier)) within))
