-- ===== src/Core.antt =====
-- `class Core` of packages/runtime/core.ts, a child module for each group of its methods.
pub mod External
pub mod Identity
pub mod Transition
pub mod Operation
pub mod Messages
pub mod Finish
pub mod Wait
pub mod Dispatch
pub mod Settle
pub mod Recover
pub mod Submit
pub mod Inbox
pub mod Management
pub mod Evolution
pub mod Quiet
pub mod Idempotence
pub mod Tools
pub mod Calm
pub mod History
