-- ===== src/Ecs/Wait/Polls.antt =====
-- What the loop of ecs/wait.go returns after several polls.
use compose_cli.Prelude.{
  String, ◌≡◌, refl, sym, ap, ◌∙◌, Bool, true, false, ◌||◌, not_both, Option, none, some, List, [],
  ◌∷◌, ◌++◌, All,
}
use compose_cli.Prelude.Results.{ok}
use compose_cli.Ecs.Wait.{
  Operation, stack_create, stack_update, stack_delete, StackEvent, EventIds, Waiting, Round,
  returned, after_round, sort_events, report_all, check_unless, do_round, wait, ignore_all, initial,
  wait_stack_completion,
}
use compose_cli.Ecs.Wait.Reports.{All-sort_events}
use compose_cli.Ecs.Wait.Failures.{
  is_some, has_failed, any_failed, any_failed-sort_events, or_assoc, HasStatus, IsInformed,
  report_all-error,
}

All-split {ℓ κ} :
    {A : Type ℓ} (holds : A → Type κ) (front back : List A)
    → All holds (front ++ back)
    → All holds front × All holds back
All-split holds [] back all = (tt, all)
All-split holds (entry ∷ front) back (of_entry, all) =
    let (of_front, of_back) = All-split holds front back all in ((of_entry, of_front), of_back)

any_failed-append :
    (ignored : EventIds) (front back : List StackEvent)
    → any_failed ignored (front ++ back) ≡ (any_failed ignored front || any_failed ignored back)
unfolding any_failed
any_failed-append ignored [] back = refl
any_failed-append ignored (e ∷ front) back =
    ap (λ b. has_failed ignored e || b) (any_failed-append ignored front back)
    ∙ sym (or_assoc (has_failed ignored e) (any_failed ignored front) (any_failed ignored back))

-- A round of a poll in which checkStackState has no error.
abbrev pub quiet_round : Bool → List StackEvent → Round
quiet_round completed events = record {
  completed = completed;
  events = ok events;
  check_stack_state = none;
  delete_stack = none;
}

abbrev pub polls : List (List StackEvent) → List StackEvent → List Round
polls [] last = quiet_round true last ∷ []
polls (first ∷ answers) last = quiet_round false first ∷ polls answers last

abbrev pub all_events : List (List StackEvent) → List StackEvent → List StackEvent
all_events [] last = last
all_events (first ∷ answers) last = first ++ all_events answers last

module _ (to_camel_case errorf : String → String) (status_of : String → String)
    (ignored : EventIds) where
  abbrev Informed : Waiting → Type 0
  Informed = IsInformed to_camel_case errorf status_of ignored

  abbrev Status : StackEvent → Type 0
  Status = HasStatus to_camel_case errorf status_of ignored

  check_unless-quiet :
      (stack_name : String) (error : Option String) (operation : Operation) (w : Waiting)
      (completed : Bool) (events : List StackEvent)
      → check_unless to_camel_case errorf stack_name error operation w
          (quiet_round completed events)
        ≡ (w, none)
  check_unless-quiet stack_name none stack_create w completed events = refl
  check_unless-quiet stack_name none stack_update w completed events = refl
  check_unless-quiet stack_name none stack_delete w completed events = refl
  check_unless-quiet stack_name (some e) operation w completed events = refl

  do_round-quiet :
      (stack_name : String) (w : Waiting) (completed : Bool) (events : List StackEvent)
      → do_round to_camel_case errorf stack_name w (quiet_round completed events)
        ≡ (report_all to_camel_case errorf w (sort_events events), none)
  unfolding do_round
  do_round-quiet stack_name w completed events =
      let reported = report_all to_camel_case errorf w (sort_events events) in
      check_unless-quiet stack_name reported.stack_err reported.operation reported completed events

  of_answer :
      (w : Waiting) (events : List StackEvent)
      → Informed w
      → All Status events
      → (is_some (report_all to_camel_case errorf w (sort_events events)).stack_err
          ≡ (is_some w.stack_err || any_failed ignored events))
        × Informed (report_all to_camel_case errorf w (sort_events events))
  of_answer w events informed all =
      let (error, informed_after) =
        report_all-error to_camel_case errorf status_of ignored w (sort_events events)
          (All-sort_events Status events all) informed in
      (
        error ∙ ap (λ b. is_some w.stack_err || b) (any_failed-sort_events ignored events),
        informed_after,
      )

  wait-failure :
      (stack_name : String) (w : Waiting) (answers : List (List StackEvent))
      (last : List StackEvent)
      → Informed w
      → All Status (all_events answers last)
      → (error : Option String) × (final : Waiting) × (wait to_camel_case errorf stack_name w
            (polls answers last)
          ≡ returned error final)
        × (is_some error ≡ (is_some w.stack_err || any_failed ignored (all_events answers last)))
  unfolding wait
  wait-failure stack_name w [] last informed all =
      let (error, informed_after) = of_answer w last informed all in
      (
        (report_all to_camel_case errorf w (sort_events last)).stack_err,
        report_all to_camel_case errorf w (sort_events last),
        ap (λ after. after_round true after (wait to_camel_case errorf stack_name after.0 []))
            (do_round-quiet stack_name w true last),
        error,
      )
  wait-failure stack_name w (first ∷ answers) last informed all =
      let (of_first, of_rest) = All-split Status first (all_events answers last) all in
      let (so_far, informed_after) = of_answer w first informed of_first in
      let (error, final, returns, errs) =
        wait-failure stack_name (report_all to_camel_case errorf w (sort_events first)) answers last
          informed_after of_rest in
      (
        error,
        final,
        ap
              (λ after.
                after_round false after
                  (wait to_camel_case errorf stack_name after.0 (polls answers last)))
              (do_round-quiet stack_name w false first)
            ∙ returns,
        errs
            ∙ rw so_far (
                or_assoc (is_some w.stack_err) (any_failed ignored first)
                  (any_failed ignored (all_events answers last))
                ∙ ap (λ b. is_some w.stack_err || b)
                    (sym (any_failed-append ignored first (all_events answers last)))),
      )

-- The loop ends with the round in which the stack is done. It returns an error exactly if one of the
-- events of any round, ignored ones apart, has a status that ends with _FAILED. Conditions: AWS
-- answers each call, checkStackState finds nothing wrong, and an event has one status.
pub wait_stack_completion-failure :
    (to_camel_case errorf : String → String) (status_of : String → String) (id stack_name : String)
    (operation : Operation) (ignored : List String) (answers : List (List StackEvent))
    (last : List StackEvent)
    → All (λ e. e.status ≡ status_of e.event_id) (all_events answers last)
    → (error : Option String) × (final : Waiting) × (wait_stack_completion to_camel_case errorf
          (ok id)
          stack_name
          operation
          ignored
          (polls answers last)
        ≡ returned error final)
      × (is_some error ≡ any_failed (ignore_all ignored []) (all_events answers last))
unfolding wait_stack_completion
wait_stack_completion-failure to_camel_case errorf status_of id stack_name operation ignored answers
      last all =
    wait-failure to_camel_case errorf status_of (ignore_all ignored []) stack_name
      (initial operation ignored) answers last
      ((λ k there. there), λ k there apart fails. absurd (not_both there apart)) all
