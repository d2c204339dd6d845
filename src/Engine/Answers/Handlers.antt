-- ===== src/Engine/Answers/Handlers.antt =====
-- How the handlers of src/engine.rs count.
use mathlib.Core.Logic.{if_neg}
use kernmini.Prelude.{
  ℕ, ◌≡◌, refl, sym, String, string_eq, true, false, List, Option, none, some, arith, if◌then◌else◌,
}
use kernmini.Prelude.Text.{ends_with}
use kernmini.Json.{Value}
use kernmini.Errors.{Error}
use kernmini.Wire.{Message, msg_type}
use kernmini.Engine.Queue.{Inbound, QueueItem}
use kernmini.Engine.Effects.{stderr, Services, emit, send_reply}
use kernmini.Engine.Replies.{
  reply_error, reply_missing, report_failure, abort_execute, interrupt_execute, begin_hold,
  finish_hold, hold_content,
}
use kernmini.Engine.Answers.{
  asks, IsWritable, Adds, Sure, Sure-pure, Sure-call, Sure-first, Sure-rest, Sure-if, Adds-first,
  Adds-rest, Adds-lift, Adds-pure, Adds-call, Sure-attempt, Adds-quiet,
}
use kernmini.Engine.Answers.Sending.{
  Sure-send_iopub, Sure-status, Sure-send_reply, Sure-publish, Sure-when, Sure-fail_kernel,
  Sure-encode, Sure-emit,
}

pub ruleset sure_rules = (
  Sure-pure, Sure-call, Sure-first, Sure-rest, Sure-when, Sure-send_iopub, Sure-status,
  Sure-send_reply, Sure-publish,
)

execute_ends : ends_with "execute_request" "_request" ≡ true
unfolding ends_with
execute_ends = refl

-- A message that is no request is not asked about.
pub asks_of_other :
    (k : String) (m : Message) → ends_with (msg_type m) "_request" ≡ false → asks k m ≡ 0
asks_of_other k m h = elim (string_eq.dec (msg_type m) "execute_request") [
  | yes e ↦ absurd (grind (arith, rw e at h, execute_ends))
  | no n ↦ rw (if_neg _ n)
]

module _ (s : Services) (writable : IsWritable s) {k : String} where
  pub Sure-reply_error :
      (request : Message) (sink : ℕ) (content : Value)
      → Sure k (asks k request) (reply_error s request sink content)
  unfolding reply_error
  Sure-reply_error request sink content = search sure_rules depth 8

  pub Sure-abort_execute :
      (count : ℕ) (i : Inbound) → Sure k (asks k i.message) (abort_execute s count i)
  unfolding abort_execute
  Sure-abort_execute count i = search sure_rules depth 8

  pub Sure-interrupt_execute :
      (count : ℕ) (i : Inbound) → Sure k (asks k i.message) (interrupt_execute s count i)
  unfolding interrupt_execute
  Sure-interrupt_execute count i = search sure_rules depth 8

  pub Sure-reply_missing :
      (count : ℕ) (request : Message) (sink : ℕ) (missing : List String)
      → Sure k (asks k request) (reply_missing s count request sink missing)
  unfolding reply_missing
  Sure-reply_missing count request sink missing = Sure-reply_error request sink _

  pub Sure-begin_hold : (count : ℕ) (item : QueueItem) → Sure k 0 (begin_hold s count item)
  unfolding begin_hold
  Sure-begin_hold count item = search sure_rules depth 8

  Sure-hold_content :
      (count : ℕ) (request : Message) (o : Option Value) → Sure k 0 (hold_content s count request o)
  Sure-hold_content count request none = Sure-pure _
  Sure-hold_content count request (some e) = search sure_rules

  pub Sure-finish_hold :
      (count : ℕ) (item : QueueItem) (release_status : String)
      → Sure k (asks k item.inbound.message) (finish_hold s count item release_status)
  unfolding finish_hold
  Sure-finish_hold count item release_status = search (sure_rules, Sure-hold_content) depth 8

  Sure-reported :
      (request : Message) (sink : ℕ) (type text : String) (content : Value)
      → Sure k (asks k request) (
          if ends_with (msg_type request) "_request"
          then send_reply s sink request type content
          else emit (stderr text))
  Sure-reported request sink type text content =
      Sure-if _ _ _ (λ _. Sure-send_reply s writable sink request type content)
        (λ h. Sure-emit (stderr text) (sym (asks_of_other k request h)))

  -- An error is told to the client in the one reply that the request gets.
  pub Sure-report_failure :
      (request : Message) (sink : ℕ) (e : Error) (count : ℕ)
      → Sure k (asks k request) (report_failure s request sink e count)
  unfolding report_failure
  Sure-report_failure request sink e count = search (sure_rules, Sure-reported) depth 8
