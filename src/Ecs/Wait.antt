-- ===== src/Ecs/Wait.antt =====
-- ecs/wait.go: the loop that waits until CloudFormation is done with a stack and reports its events.
--
-- What AWS answers in each round of the loop is given, as are the casing of a status and
-- fmt.Errorf without arguments. Of events with the same time the order is that of the answer.
pub mod Reports
pub mod Deletions
pub mod Failures
pub mod Polls
mod Tests
use Prim.Native.String.{◌++◌ as text_append}
use compose_cli.Prelude.{
  ℕ, suc, String, Bool, true, false, Option, none, some, List, [], ◌∷◌, ◌++◌, ltb, ◌==◌,
  if◌then◌else◌,
}
use compose_cli.Prelude.GoMap.{GoMap, has, insert}
use compose_cli.Prelude.Results.{Result, ok, err}
use compose_cli.Go.Strings.{has_suffix}

pub data Operation : Type 0 where
  stack_create : Operation
  stack_update : Operation
  stack_delete : Operation

pub record StackEvent : Type 0 where
  pub event_id : String
  pub resource : String
  pub reason : String
  pub status : String
  pub timestamp : ℕ

-- `EventStatus` of api/progress/event.go
pub data EventStatus : Type 0 where
  working : EventStatus
  done : EventStatus
  failing : EventStatus

pub record ProgressEvent : Type 0 where
  pub id : String
  pub status : EventStatus
  pub status_text : String

-- The keys of `knownEvents`.
abbrev pub EventIds : Type 0
EventIds = GoMap (Unit {0})

-- The variables of the loop, the progress that it wrote and the stacks that it deleted.
pub record Waiting : Type 0 where
  pub known_events : EventIds
  pub operation : Operation
  pub stack_err : Option String
  pub written : List ProgressEvent
  pub deletions : ℕ

-- A round: whether `done` was received, and what DescribeStackEvents, checkStackState and
-- DeleteStack answer in it, if they are called.
pub record Round : Type 0 where
  pub completed : Bool
  pub events : Result String (List StackEvent)
  pub check_stack_state : Option String
  pub delete_stack : Option String

unfoldable pub insert_by_time : StackEvent → List StackEvent → List StackEvent
insert_by_time e [] = e ∷ []
insert_by_time e (f ∷ events) =
    if ltb f.timestamp e.timestamp then f ∷ insert_by_time e events else e ∷ f ∷ events

unfoldable pub sort_events : List StackEvent → List StackEvent
sort_events [] = []
sort_events (e ∷ events) = insert_by_time e (sort_events events)

abbrev pub when_creating : Operation → EventStatus
when_creating stack_create = done
when_creating stack_update = working
when_creating stack_delete = working

abbrev pub when_updating : Operation → EventStatus
when_updating stack_create = working
when_updating stack_update = done
when_updating stack_delete = working

abbrev pub when_deleting : Operation → EventStatus
when_deleting stack_create = working
when_deleting stack_update = working
when_deleting stack_delete = done

-- The default case of the switch.
unfoldable pub is_failure : String → Bool
is_failure status =
    if status == "CREATE_COMPLETE"
    then false
    else if status == "UPDATE_COMPLETE"
    then false
    else if status == "DELETE_COMPLETE"
    then false
    else has_suffix status "_FAILED"

abbrev pub progress_status : Operation → String → EventStatus
progress_status operation status =
    if status == "CREATE_COMPLETE"
    then when_creating operation
    else if status == "UPDATE_COMPLETE"
    then when_updating operation
    else if status == "DELETE_COMPLETE"
    then when_deleting operation
    else if has_suffix status "_FAILED"
    then failing
    else working

abbrev pub failed_operation : Option String → Operation → Operation
failed_operation none operation = stack_delete
failed_operation (some e) operation = operation

abbrev pub failed_error : Option String → String → Option String
failed_error none e = some e
failed_error (some first) e = some first

-- The loop has returned, or waits for a further round.
pub data Outcome : Type 0 where
  returned : Option String → Waiting → Outcome
  pending : Waiting → Outcome

-- What the loop does after a round, and in `rest` after the further ones.
abbrev pub after_round : Bool → Waiting × Option String → Outcome → Outcome
after_round completed (next, some e) rest = returned (some e) next
after_round true (next, none) rest = returned next.stack_err next
after_round false (next, none) rest = rest

module _ (to_camel_case errorf : String → String) where
  abbrev pub progress_of : Operation → StackEvent → ProgressEvent
  progress_of operation e = record {
    id = e.resource;
    status = progress_status operation e.status;
    status_text = text_append (to_camel_case e.status) (text_append " " e.reason);
  }

  -- An event that is not known yet.
  abbrev pub report_new : Waiting → StackEvent → Waiting
  report_new w e = record w {
    known_events = insert e.event_id tt w.known_events;
    operation =
        if is_failure e.status then failed_operation w.stack_err w.operation else w.operation;
    stack_err =
        if is_failure e.status then failed_error w.stack_err (errorf e.reason) else w.stack_err;
    written = w.written ++ progress_of w.operation e ∷ [];
  }

  abbrev pub report : Waiting → StackEvent → Waiting
  report w e = if has e.event_id w.known_events then w else report_new w e

  unfoldable pub report_all : Waiting → List StackEvent → Waiting
  report_all w [] = w
  report_all w (e ∷ events) = report_all (report w e) events

  abbrev pub after_failed_check : String → Waiting → String → Waiting
  after_failed_check stack_name w e = record w {
    operation = stack_delete;
    stack_err = some e;
    written = w.written ++ record { id = stack_name; status = failing; status_text = e } ∷ [];
    deletions = suc w.deletions;
  }

  -- What the loop does where the operation is still the creation and nothing failed. The second part
  -- is an error that returns at once.
  abbrev pub check_creation : String → Waiting → Round → Waiting × Option String
  check_creation stack_name w r = elim r.check_stack_state [
    | none ↦ (w, none)
    | some e ↦ elim r.delete_stack [
      | none ↦ (after_failed_check stack_name w e, none)
      | some f ↦ (record w { deletions = suc w.deletions }, some f)
    ]
  ]

  abbrev pub check_unless :
      String → Option String → Operation → Waiting → Round → Waiting × Option String
  check_unless stack_name none stack_create w r = check_creation stack_name w r
  check_unless stack_name none stack_update w r = (w, none)
  check_unless stack_name none stack_delete w r = (w, none)
  check_unless stack_name (some e) operation w r = (w, none)

  unfoldable pub do_round : String → Waiting → Round → Waiting × Option String
  do_round stack_name w r = elim r.events [
    | err e ↦ (w, some e)
    | ok events ↦
        let reported = report_all w (sort_events events) in
        check_unless stack_name reported.stack_err reported.operation reported r
  ]

  unfoldable pub wait : String → Waiting → List Round → Outcome
  wait stack_name w [] = pending w
  wait stack_name w (r ∷ rounds) =
      let after = do_round stack_name w r in
      after_round r.completed after (wait stack_name after.0 rounds)

abbrev pub ignore_all : List String → EventIds → EventIds
ignore_all [] known = known
ignore_all (id ∷ ignored) known = ignore_all ignored (insert id tt known)

abbrev pub initial : Operation → List String → Waiting
initial operation ignored = record {
  known_events = ignore_all ignored [];
  operation = operation;
  stack_err = none;
  written = [];
  deletions = 0;
}

-- `stack_id` is what GetStackID answers.
unfoldable pub wait_stack_completion :
    (to_camel_case errorf : String → String)
    → (stack_id : Result String String) → String
    → Operation
    → List String
    → List Round
    → Outcome
wait_stack_completion to_camel_case errorf (err e) stack_name operation ignored rounds =
    returned (some e) (initial operation ignored)
wait_stack_completion to_camel_case errorf (ok id) stack_name operation ignored rounds =
    wait to_camel_case errorf stack_name (initial operation ignored) rounds
