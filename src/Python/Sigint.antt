-- ===== src/Python/Sigint.antt =====
-- Two requests in a row for user code on the main thread of src/py/src/python.rs: what
-- `SignalRouter::__call__` does with the two SIGINTs, by when it runs.
use kernmini.Prelude.{◌≡◌, ℕ, Bool, true, false, [], ◌∷◌, Option, none, some, arith}
use kernmini.Python.UserCode.{
  Interrupts, raised, interrupted_kernel, sent_sigint, spawned_delivery, signals, mark, request,
  handle_sigint,
}

module _ (unix : Bool) (main_thread : Option ℕ) where
  -- A second request may mark the shared state before the first SIGINT is handled and send its own
  -- SIGINT after it. In user code on the main thread, the handler of the first then takes the mark
  -- of both and raises, and that of the second, which kernmini sent too, interrupts the whole kernel.
  pub second_sigint-interrupts :
      (i : Interrupts) (thread : ℕ)
      → i.code.thread ≡ some thread
      → signals unix main_thread thread ≡ true
      → let first = (request unix main_thread false none i).0 in
        let second = record first { code = mark unix main_thread first.code } in
        let handled = (handle_sigint second).0 in
        ((request unix main_thread false none i).1 ≡ sent_sigint thread ∷ spawned_delivery ∷ [])
        × ((request unix main_thread false none first).1
            ≡ sent_sigint thread ∷ spawned_delivery ∷ [])
        × ((handle_sigint second).1 ≡ raised ∷ [])
        × ((handle_sigint handled).1 ≡ interrupted_kernel ∷ [])
  unfolding request mark handle_sigint
  second_sigint-interrupts i thread inside main = ground arith

  -- A request for user code on the main thread whose SIGINT is handled before the next one raises there,
  -- once, and neither leaves an interrupt pending nor interrupts the whole kernel.
  pub request-handle_sigint :
      (i : Interrupts) (thread : ℕ)
      → i.code.thread ≡ some thread
      → signals unix main_thread thread ≡ true
      → let handled = handle_sigint (request unix main_thread false none i).0 in
        (handled.1 ≡ raised ∷ [])
        × (handled.0.code.pending ≡ false)
        × (handled.0.code.woken ≡ false)
        × (handled.0.interrupted ≡ true)
  unfolding request mark handle_sigint
  request-handle_sigint i thread inside main = ground arith
