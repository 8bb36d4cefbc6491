-- ===== src/Transitions.antt =====
-- `JobTransitionService`: gateway/core/services/job_transitions.py. Each public method is one
-- transition: the status change, and what the transition owes.
pub mod Monad
pub mod Writes
pub mod Owed
pub mod Methods
pub mod Effects
pub mod Rows
pub mod Debts
pub mod Ends
pub mod Steps
pub mod Calls
pub mod History
pub mod Progress
pub mod Memory
pub mod Outcomes
pub mod Owing
pub mod Start
pub mod Stopping
pub mod Builders
pub mod Returns
