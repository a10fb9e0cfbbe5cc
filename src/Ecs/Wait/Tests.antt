-- ===== src/Ecs/Wait/Tests.antt =====
-- A creation that fails in its second round, and the theorems about ecs/wait.go at it.
use compose_cli.Prelude.{
  ◌≤◌, String, ◌≡◌, refl, Option, none, some, [], ◌∷◌, ◌==◌, if◌then◌else◌, length,
}
use compose_cli.Prelude.GoMap.{has, insert, lookup}
use compose_cli.Prelude.Results.{ok}
use compose_cli.Go.Strings.{has_suffix}
use compose_cli.Ecs.Wait.{
  stack_create, StackEvent, Waiting, Outcome, returned, pending, insert_by_time, sort_events,
  is_failure, report_all, do_round, wait, ignore_all, initial, wait_stack_completion,
}
use compose_cli.Ecs.Wait.Reports.{has_id, report_all-polled}
use compose_cli.Ecs.Wait.Deletions.{state_of, wait_stack_completion-deletions}
use compose_cli.Ecs.Wait.Failures.{is_some, any_failed}
use compose_cli.Ecs.Wait.Polls.{polls, all_events, wait_stack_completion-failure}

abbrev same : String → String
same t = t

abbrev started : StackEvent
started = record {
  event_id = "1";
  resource = "web";
  reason = "";
  status = "CREATE_IN_PROGRESS";
  timestamp = 5;
}

abbrev broken : StackEvent
broken = record {
  event_id = "2";
  resource = "web";
  reason = "no capacity";
  status = "CREATE_FAILED";
  timestamp = 9;
}

abbrev status_of : String → String
status_of id = if id == "1" then "CREATE_IN_PROGRESS" else "CREATE_FAILED"

abbrev error_of : Outcome → Option String
error_of (returned e w) = e
error_of (pending w) = none

abbrev run : Outcome
run =
    wait_stack_completion same same (ok "id") "shop" stack_create []
      (polls ((started ∷ []) ∷ []) (broken ∷ started ∷ []))

-- Both events are reported, one time each.
run_error : error_of run ≡ some "no capacity"
unfolding wait_stack_completion wait do_round report_all sort_events insert_by_time is_failure
    has_suffix insert has lookup
run_error = refl

run_reports : length (state_of run).written ≡ 2
unfolding wait_stack_completion wait do_round report_all sort_events insert_by_time is_failure
    has_suffix insert has lookup
run_reports = refl

report_all-polled_example :
    report_all same same
      (report_all same same (initial stack_create []) (sort_events (started ∷ broken ∷ [])))
      (sort_events (broken ∷ []))
    ≡ report_all same same (initial stack_create []) (sort_events (started ∷ broken ∷ []))
unfolding has_id
report_all-polled_example =
    report_all-polled same same (initial stack_create []) (started ∷ broken ∷ []) (broken ∷ [])
      (refl, tt)

wait_stack_completion-deletions_example : (state_of run).deletions ≤ 1
wait_stack_completion-deletions_example =
    wait_stack_completion-deletions same same (ok "id") "shop" stack_create []
      (polls ((started ∷ []) ∷ []) (broken ∷ started ∷ []))

wait_stack_completion-failure_example :
    (error : Option String) × (final : Waiting) × (run ≡ returned error final)
    × (is_some error
        ≡ any_failed (ignore_all [] []) (all_events ((started ∷ []) ∷ []) (broken ∷ started ∷ [])))
wait_stack_completion-failure_example =
    wait_stack_completion-failure same same status_of "id" "shop" stack_create []
      ((started ∷ []) ∷ []) (broken ∷ started ∷ []) (refl, (refl, (refl, tt)))
