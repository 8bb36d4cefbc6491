-- ===== src/Tests.antt =====
-- Small runs of the model, and each theorem applied to concrete jobs and times.
mod Blocked
mod Schedule
mod Queries
mod Profile
mod Consumer
mod Fixtures
mod Transitions
mod Scheduling
mod Access
mod Fleets
mod Executor
mod Paths
mod StopJob
mod BlockedEvents
mod Filler
mod Submit
mod Delivery
