-- ===== src/Python.antt =====
-- The Python adapter, src/py/src/python.rs: the interrupts of user code, and what the interpreter's
-- answers become. The interpreter and the event loop are parameters.
pub mod UserCode
pub mod Session
pub mod Errors
pub mod Outcome
pub mod Settled
pub mod Carriers
pub mod Sigint
pub mod Interrupted
