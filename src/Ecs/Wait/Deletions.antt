-- ===== src/Ecs/Wait/Deletions.antt =====
-- The calls of DeleteStack in the loop of ecs/wait.go.
use compose_cli.Prelude.{
  ◌≤◌, String, ◌≡◌, refl, sym, ◌∙◌, Bool, true, false, inl, inr, Bool-cases, Option, none, some,
  Option-cases, List, [], ◌∷◌, arith,
}
use compose_cli.Prelude.GoMap.{has}
use compose_cli.Prelude.Results.{Result, ok, err}
use compose_cli.Ecs.Wait.{
  Operation, stack_create, stack_update, stack_delete, StackEvent, Waiting, Round, Outcome,
  returned, pending, after_round, sort_events, is_failure, failed_error, report, report_all,
  check_unless, do_round, wait, initial, wait_stack_completion,
}

-- At most one call, and none as long as there is no error.
abbrev Deletes : Waiting → Type 0
Deletes w = (w.stack_err ≡ none → w.deletions ≡ 0) × (w.deletions ≤ 1)

abbrev pub state_of : Outcome → Waiting
state_of (returned e w) = w
state_of (pending w) = w

error_none : (o : Option String) (t : String) → failed_error o t ≡ none → o ≡ none
error_none none t e = refl
error_none (some u) t e = e

module _ (to_camel_case errorf : String → String) where
  report-Deletes :
      (w : Waiting) (e : StackEvent) → Deletes w → Deletes (report to_camel_case errorf w e)
  report-Deletes w e (unless, bound) = elim (Bool-cases (has e.event_id w.known_events)) [
    | inl known ↦ rw known (unless, bound)
    | inr new ↦ rw new (elim (Bool-cases (is_failure e.status)) [
      | inl fails ↦ (
        (λ quiet. unless (error_none w.stack_err (errorf e.reason) (sym (rw fails refl) ∙ quiet))),
        bound,
      )
      | inr good ↦ ((λ quiet. unless (sym (rw good refl) ∙ quiet)), bound)
    ])
  ]

  report_all-Deletes :
      (w : Waiting) (events : List StackEvent)
      → Deletes w
      → Deletes (report_all to_camel_case errorf w events)
  unfolding report_all
  report_all-Deletes w [] deletes = deletes
  report_all-Deletes w (e ∷ events) deletes =
      report_all-Deletes (report to_camel_case errorf w e) events (report-Deletes w e deletes)

  -- After a round which returns at once only the bound is left.
  abbrev DeletesAfter : Waiting × Option String → Type 0
  DeletesAfter (next, none) = Deletes next
  DeletesAfter (next, some e) = next.deletions ≤ 1

  check_unless-DeletesAfter :
      (stack_name : String) (error : Option String) (operation : Operation) (w : Waiting)
      (r : Round)
      → (error ≡ none → w.deletions ≡ 0)
      → Deletes w
      → DeletesAfter (check_unless to_camel_case errorf stack_name error operation w r)
  check_unless-DeletesAfter stack_name (some e) operation w r quiet deletes = deletes
  check_unless-DeletesAfter stack_name none stack_update w r quiet deletes = deletes
  check_unless-DeletesAfter stack_name none stack_delete w r quiet deletes = deletes
  check_unless-DeletesAfter stack_name none stack_create w r quiet deletes =
      elim (Option-cases r.check_stack_state) [
        | inl good ↦ rw good deletes
        | inr (e, bad) ↦ rw bad (elim (Option-cases r.delete_stack) [
          | inl deleted ↦ rw deleted ((λ none_left. absurd cc), omega (arith, quiet refl))
          | inr (f, failed) ↦ rw failed (omega (arith, quiet refl))
        ])
      ]

  do_round-DeletesAfter :
      (stack_name : String) (w : Waiting) (r : Round)
      → Deletes w
      → DeletesAfter (do_round to_camel_case errorf stack_name w r)
  unfolding do_round
  do_round-DeletesAfter stack_name w r deletes = by_answer r.events
    where
      by_answer :
          (answer : Result String (List StackEvent))
          → DeletesAfter (elim answer [
            | err e ↦ (w, some e)
            | ok events ↦
                check_unless to_camel_case errorf stack_name
                  (report_all to_camel_case errorf w (sort_events events)).stack_err
                  (report_all to_camel_case errorf w (sort_events events)).operation
                  (report_all to_camel_case errorf w (sort_events events))
                  r
          ])
      by_answer (err e) = deletes.1
      by_answer (ok events) =
          check_unless-DeletesAfter stack_name
            (report_all to_camel_case errorf w (sort_events events)).stack_err
            (report_all to_camel_case errorf w (sort_events events)).operation
            (report_all to_camel_case errorf w (sort_events events)) r
            (report_all-Deletes w (sort_events events) deletes).0
            (report_all-Deletes w (sort_events events) deletes)

  after_round-deletions :
      (completed : Bool) (after : Waiting × Option String) (rest : Outcome)
      → DeletesAfter after
      → (Deletes after.0 → (state_of rest).deletions ≤ 1)
      → (state_of (after_round completed after rest)).deletions ≤ 1
  after_round-deletions completed (next, some e) rest bound later = bound
  after_round-deletions true (next, none) rest deletes later = deletes.1
  after_round-deletions false (next, none) rest deletes later = later deletes

  wait-deletions :
      (stack_name : String) (w : Waiting) (rounds : List Round)
      → Deletes w
      → (state_of (wait to_camel_case errorf stack_name w rounds)).deletions ≤ 1
  unfolding wait
  wait-deletions stack_name w [] deletes = deletes.1
  wait-deletions stack_name w (r ∷ rounds) deletes =
      after_round-deletions r.completed (do_round to_camel_case errorf stack_name w r)
        (wait to_camel_case errorf stack_name (do_round to_camel_case errorf stack_name w r).0
          rounds)
        (do_round-DeletesAfter stack_name w r deletes)
        (wait-deletions stack_name (do_round to_camel_case errorf stack_name w r).0 rounds)

-- Whatever AWS answers, and in however many rounds, the loop calls DeleteStack at most once.
pub wait_stack_completion-deletions :
    (to_camel_case errorf : String → String) (stack_id : Result String String) (stack_name : String)
    (operation : Operation) (ignored : List String) (rounds : List Round)
    → (state_of (
        wait_stack_completion to_camel_case errorf stack_id stack_name operation ignored
          rounds)).deletions
      ≤ 1
unfolding wait_stack_completion
wait_stack_completion-deletions to_camel_case errorf (err e) stack_name operation ignored rounds =
    omega arith
wait_stack_completion-deletions to_camel_case errorf (ok id) stack_name operation ignored rounds =
    wait-deletions to_camel_case errorf stack_name (initial operation ignored) rounds
      ((λ quiet. refl), omega arith)
