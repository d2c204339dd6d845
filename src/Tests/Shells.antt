-- ===== src/Tests/Shells.antt =====
-- The theorems on the shell of src/engine.rs, at concrete requests.
use mathlib.Core.List.{Perm}
use kernmini.Prelude.{
  ◌+◌, ◌≤◌, ◌≡◌, refl, inl, string_eq, nat_eq, bytes_eq, true, false, List, [], ◌∷◌, none, some,
  All, arith, ◌<◌, ◌^◌, count_if,
}
use kernmini.Json.{bool, object, empty, field, lookup, get}
use kernmini.Float.{as_f64, is_nan, rank}
use kernmini.Errors.{ok}
use kernmini.Wire.{msg_type, text_field}
use kernmini.Engine.Queue.{
  QueueItem, Held, is_execute, is_runnable, pop_runnable, pop_loop, push, extend,
}
use kernmini.Engine.Queue.Order.{IsSorted}
use kernmini.Engine.Queue.Runnable.{Loses, pop_runnable-first, pop_runnable-none}
use kernmini.Engine.Replies.{missing_fields}
use kernmini.Engine.Execute.{run_execution, execute_request}
use kernmini.Engine.Shell.{
  Shell, is_hold, priority_of, drain_incoming, abort_pending, handle_item, start_execution,
}
use kernmini.Engine.Shell.Ordered.{Fits, others}
use kernmini.Engine.Shell.Aborts.{abort_pending-clears}
use kernmini.Engine.Run.{Turn, running, timed_out, again, prepare, pass, run}
use kernmini.Engine.Run.Interrupts.{next_item-uninterrupted}
use kernmini.Engine.Run.Ordered.{AreNumeric, run-IsSorted}
use kernmini.Engine.Answers.{answers, asks, IsWritable}
use kernmini.Engine.Balance.{pending, waiting, queued}
use kernmini.Engine.Balance.Passes.{arrivals, next_item, overtaken, taken_in}
use kernmini.Engine.Balance.Queues.{IsAbove, pop_runnable-IsAbove}
use kernmini.Engine.Shell.Counts.{counts, numbered, documented, one_more, stores, counts-numbered}
use kernmini.Language.{ExecuteRequest}
use kernmini.Engine.Balance.Replies.{
  run_execution-answers, run-answers_most, pass-answers, handle_item-overtaking,
}
use kernmini.Tests.{test_services, test_world, inbound, plain_item, urgent_item}

pub writable : IsWritable test_services
writable (object empty) = (1 ∷ [], refl)
writable _ = (2 ∷ [], refl)

abbrev two_items : List QueueItem
two_items = urgent_item 1 ∷ plain_item 0 ∷ []

two_items-IsSorted : IsSorted 2 two_items
unfolding is_nan rank
two_items-IsSorted = (refl, omega arith, (inl (omega arith), tt), (refl, omega arith, tt, tt))

first_taken : (pop_runnable two_items false none).0 ≡ some (urgent_item 1)
unfolding pop_runnable pop_loop is_runnable string_eq msg_type text_field lookup
first_taken = refl

none_taken : (pop_runnable two_items true none).0 ≡ none
unfolding pop_runnable pop_loop is_runnable string_eq msg_type text_field lookup
none_taken = refl

abbrev empty_shell : Shell
empty_shell = record {
  incoming = [];
  controls = [];
  queue = [];
  order = 0;
  held = none;
  active = none;
  stopping = false;
  interrupting = false;
  execution_count = 0;
}

abbrev busy_shell : Shell
busy_shell = record empty_shell { incoming = inbound empty ∷ []; queue = two_items; order = 2 }

busy_shell-Fits : Fits 0 busy_shell
unfolding priority_of lookup is_nan
busy_shell-Fits = (two_items-IsSorted, (refl, tt), omega arith)

abbrev one_turn : List Turn
one_turn =
    record { arrived = inbound empty ∷ []; told = []; finish = running; wake = timed_out } ∷ []

pop_runnable-first_example :
    let rest = (pop_runnable two_items false none).1 in
    (is_runnable false none (urgent_item 1) ≡ true)
    × All (Loses false none (urgent_item 1)) rest
    × Perm two_items (urgent_item 1 ∷ rest)
pop_runnable-first_example =
    pop_runnable-first 2 two_items false none (urgent_item 1) two_items-IsSorted first_taken

pop_runnable-none_example :
    All (λ y. is_runnable true none y ≡ false) two_items
    × ((pop_runnable two_items true none).1 ≡ two_items)
pop_runnable-none_example = pop_runnable-none 2 two_items true none two_items-IsSorted none_taken

run_execution-answers_example :
    answers "e1"
      (run_execution test_services
        (inbound empty)
        (execute_request (inbound empty).message.content)
        1
        false
        test_world).1
    ≡ answers "e1" test_world + asks "e1" (inbound empty).message
run_execution-answers_example =
    run_execution-answers test_services "e1" (inbound empty)
      (execute_request (inbound empty).message.content) 1 false test_world writable

run-answers_most_example :
    answers "e1" (run test_services one_turn empty_shell test_world).1
    ≤ answers "e1" test_world + (pending "e1" empty_shell + arrivals "e1" one_turn)
run-answers_most_example =
    run-answers_most test_services "e1" one_turn empty_shell test_world writable

abort_pending-clears_example :
    (after : Shell) × ((abort_pending test_services busy_shell test_world).0 ≡ ok after)
    × (after
        ≡ record (drain_incoming busy_shell) { queue = others (drain_incoming busy_shell).queue })
    × (answers "e1" (abort_pending test_services busy_shell test_world).1
        ≡ answers "e1" test_world
          + (waiting "e1" busy_shell.incoming + queued "e1" busy_shell.queue))
abort_pending-clears_example =
    abort_pending-clears test_services "e1" 0 busy_shell test_world writable busy_shell-Fits

abbrev one_queued : Shell
one_queued = record empty_shell { queue = plain_item 0 ∷ []; order = 1 }

-- One pass starts the queued execution.
one_prepared : (prepare test_services running one_queued test_world).0 ≡ ok one_queued
unfolding prepare
one_prepared = refl

one_alone : overtaken one_queued ≡ false
unfolding pop_runnable pop_loop is_runnable string_eq msg_type text_field lookup extend push as_f64
one_alone = refl

one_passed :
    (pass test_services running timed_out one_queued test_world).0
    ≡ ok (again (start_execution test_services (record one_queued { queue = [] }) (inbound empty)))
unfolding pass string_eq msg_type missing_fields get
one_passed = refl

pass-answers_example :
    answers "e1" (pass test_services running timed_out one_queued test_world).1
      + pending "e1"
          (start_execution test_services (record one_queued { queue = [] }) (inbound empty))
    ≡ answers "e1" test_world
      + (pending "e1" one_queued + taken_in test_services "e1" one_queued timed_out)
pass-answers_example =
    pass-answers test_services "e1" running timed_out one_queued one_queued
      (again (start_execution test_services (record one_queued { queue = [] }) (inbound empty)))
      test_world writable one_prepared one_alone one_passed

-- Two requests arrive at once: the first starts, the second stays queued.
abbrev two_turn : List Turn
two_turn =
    record {
      arrived = inbound empty ∷ inbound empty ∷ [];
      told = [];
      finish = running;
      wake = timed_out;
    }
    ∷ []

abbrev one_left : Shell
one_left =
    start_execution test_services (record empty_shell { queue = plain_item 1 ∷ []; order = 2 })
      (inbound empty)

two_turn-Fits : Fits 3 empty_shell
two_turn-Fits = (tt, tt, omega arith)

two_turn-AreNumeric : AreNumeric two_turn
unfolding priority_of lookup is_nan
two_turn-AreNumeric = ((refl, (refl, tt)), tt, tt)

two_run : (run test_services two_turn empty_shell test_world).0 ≡ ok (again one_left)
unfolding run string_eq msg_type missing_fields get
two_run = refl

run-IsSorted_example : IsSorted one_left.order one_left.queue
run-IsSorted_example =
    run-IsSorted test_services two_turn empty_shell (again one_left) test_world two_turn-AreNumeric
      two_turn-Fits two_run

abbrev hold_item : QueueItem
hold_item = record {
  priority = 4607182418800017408;
  order = 1;
  inbound = inbound (field "hold" (bool true) empty);
}

abbrev held : Held
held = record { item = plain_item 0; deadline = 60000 }

abbrev held_shell : Shell
held_shell = record empty_shell { held = some held; order = 2 }

is_execution : is_execute hold_item.inbound ≡ true
unfolding msg_type text_field lookup string_eq
is_execution = refl

none_missing : missing_fields hold_item.inbound.message ≡ []
unfolding missing_fields msg_type text_field lookup string_eq get
none_missing = refl

is_held : is_hold hold_item.inbound ≡ true
unfolding lookup string_eq
is_held = refl

handle_item-overtaking_example :
    (after : Shell) × ((handle_item test_services held_shell hold_item test_world).0
      ≡ ok (after, false))
    × (answers "e1" (handle_item test_services held_shell hold_item test_world).1
        ≡ answers "e1" test_world)
    × (pending "e1" after + asks "e1" held.item.inbound.message
        ≡ pending "e1" held_shell + asks "e1" hold_item.inbound.message)
handle_item-overtaking_example =
    handle_item-overtaking test_services "e1" held_shell hold_item held test_world writable refl
      refl is_execution none_missing is_held

-- Above the held item only the urgent one is taken.
above_taken : (pop_runnable two_items false (some held)).0 ≡ some (urgent_item 1)
unfolding pop_runnable string_eq msg_type
above_taken = refl

urgent_is_execution : is_execute (urgent_item 1).inbound ≡ true
unfolding msg_type text_field lookup string_eq
urgent_is_execution = refl

pop_runnable-IsAbove_example : (false ≡ false) × IsAbove (some held) (urgent_item 1)
pop_runnable-IsAbove_example =
    pop_runnable-IsAbove two_items false (some held) (urgent_item 1) above_taken urgent_is_execution

-- Two executions that store history, and a silent one between them.
abbrev loud : ExecuteRequest
loud = execute_request (inbound empty).message.content

abbrev three : List ExecuteRequest
three = loud ∷ record loud { silent = true } ∷ loud ∷ []

three_fit : empty_shell.execution_count + count_if stores three < 2 ^ 64
unfolding execute_request
three_fit = ground arith

counts-numbered_example :
    (counts empty_shell three ≡ numbered 0 three)
    × (one_more three (counts empty_shell three) ≡ documented 1 three)
counts-numbered_example = counts-numbered empty_shell three three_fit

one_next : next_item one_queued ≡ some (plain_item 0)
unfolding pop_runnable string_eq msg_type
one_next = refl

plain_is_execution : is_execute (plain_item 0).inbound ≡ true
unfolding msg_type text_field lookup string_eq
plain_is_execution = refl

next_item-uninterrupted_example : (one_queued.interrupting ≡ false) × (one_queued.active ≡ none)
next_item-uninterrupted_example =
    next_item-uninterrupted test_services running one_queued one_queued (plain_item 0) test_world
      one_prepared one_next plain_is_execution
