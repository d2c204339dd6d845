-- ===== src/Engine.antt =====
-- src/engine.rs: the shell's queue, the messages that a handler sends, and the shell scheduler.
pub mod Queue
pub mod Effects
pub mod Replies
pub mod Pump
pub mod Execute
pub mod Handler
pub mod Shell
pub mod Run
pub mod Answers
pub mod Balance
pub mod Router
pub mod Control
pub mod Stdin
pub mod Config
