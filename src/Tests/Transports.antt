-- ===== src/Tests/Transports.antt =====
-- The theorems on src/transport.rs and src/thread_worker.rs, at concrete channels, frames and jobs.
use native.Mathlib.Decide.{ℕ_discrete}
use kernmini.Prelude.{
  ℕ, ◌+◌, ◌≡◌, refl, nat_eq, bytes_eq, Bool, not, ◌&&◌, List, [], ◌∷◌, none, some, if◌then◌else◌,
  ◌==◌, map, length, count_if,
}
use kernmini.Errors.{ok}
use kernmini.Transport.Subscribers.{publish_peers, publish_loop, swap_remove}
use kernmini.Transport.Subscribers.Publishing.{publish_peers-Publishes}
use kernmini.Transport.Peers
use kernmini.Transport.Peers.{Table, find_peer, connected, disconnected, cell_all}
use kernmini.Worker.{Job, call, stop, Worker, start}
use kernmini.Worker.Sequential
use kernmini.Worker.Order.{perform_all-sequential}

-- The channel 2 has ended.
abbrev but_two : ℕ → Bool
unfolding nat_eq ℕ_discrete
but_two n = not (n == 2)

published : publish_peers but_two (1 ∷ 2 ∷ 3 ∷ 4 ∷ []) ≡ some (1 ∷ 4 ∷ 3 ∷ [], 1 ∷ 4 ∷ 3 ∷ [])
unfolding publish_peers publish_loop swap_remove nat_eq ℕ_discrete
published = refl

publish_peers-Publishes_example :
    (left : List ℕ) × (log : List ℕ) × (publish_peers but_two (1 ∷ 2 ∷ 3 ∷ []) ≡ some (left, log))
    × ((p : ℕ → Bool) → count_if p left ≡ count_if (λ x. p x && but_two x) (1 ∷ 2 ∷ 3 ∷ []))
    × ((p : ℕ → Bool) → count_if p log ≡ count_if (λ x. p x && but_two x) (1 ∷ 2 ∷ 3 ∷ []))
publish_peers-Publishes_example = publish_peers-Publishes but_two (1 ∷ 2 ∷ 3 ∷ [])

-- A peer that connects again before its first connection ends.
abbrev reconnection : List Peers.Event
reconnection = connected (5 ∷ []) 1 ∷ connected (5 ∷ []) 2 ∷ disconnected (5 ∷ []) 1 ∷ []

reconnected : cell_all (5 ∷ []) reconnection none ≡ some 2
unfolding nat_eq bytes_eq ℕ_discrete
reconnected = refl

-- A call that adds and answers with the old number, and one that panics at 3.
abbrev add : ℕ → Job ℕ ℕ
add n = call (λ s. some (s + n, s))

abbrev careful : Job ℕ ℕ
unfolding nat_eq ℕ_discrete
careful = call (λ s. if s == 3 then none else some (s, s))

abbrev schedule : List (Sequential.Event ℕ ℕ)
schedule =
    Sequential.sending (add 3)
    ∷ Sequential.running
    ∷ Sequential.sending careful
    ∷ Sequential.sending (add 4)
    ∷ Sequential.running
    ∷ Sequential.sending stop
    ∷ []

abbrev fresh : Worker ℕ ℕ
fresh = record { state = some 0; queue = []; answers = [] }

started : start (ok 0) ≡ ok fresh
unfolding start
started = refl

perform_all-sequential_example :
    let u = Sequential.perform_all schedule fresh in
    map Sequential.outcome (Sequential.drain (length u.queue) u).answers
    ≡ Sequential.sequential 0 (Sequential.jobs_of schedule)
perform_all-sequential_example = perform_all-sequential 0 fresh schedule started

find_peer-perform_all_example :
    find_peer (5 ∷ []) (Peers.perform_all reconnection [])
    ≡ cell_all (5 ∷ []) reconnection (find_peer (5 ∷ []) [])
find_peer-perform_all_example = Peers.find_peer-perform_all (5 ∷ []) reconnection []
