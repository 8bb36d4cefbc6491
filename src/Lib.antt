-- ===== src/Lib.antt =====
-- The core logic of the serverless gateway and its scheduler (gateway/).
--
-- A job is a row that several processes write: the gateway's requests, and the tasks of the scheduler's
-- loop. All of them change its status by way of one service, which locks the row, validates the change,
-- adds an event to the history and enqueues in the same transaction the messages that the end of a job
-- owes: its usage, a license fee, and its final status for the Runtime API.
--
-- - Models: gateway/core/models.py and gateway/core/model_managers/job_events.py. A row is a record of
--   the columns that a modelled operation reads, a foreign key that the code follows is the row that it
--   leads to, a table is a list in insertion order. Times are natural numbers, in microseconds where
--   the unit matters; ids are numbers.
-- - Faults: the classes of exceptions. Crn: gateway/core/domain/crn.py.
-- - Billing: gateway/core/domain/billing_events.py, business_models.py and subsidized_license_mapping.py.
--   Workload: gateway/core/domain/workload_payload.py.
-- - Transitions: gateway/core/services/job_transitions.py. Monad is the store and its exceptions,
--   Writes, Owed and Methods the code under the names that it has there, the other files its theorems.
--   A call is an atomic step: select_for_update lets one caller at a time change a row, so that the
--   interleavings of processes are the sequences of calls (History), each with a job instance that may
--   be older than its row. What a call does before and after its transaction touches no table. A pass of
--   the scheduler over one job (Fleets, Submit) is several transactions, run with none in between.
-- - Breaker: gateway/scheduler/tasks/circuit_breaker.py.
-- - FairShare: get_jobs_to_schedule_fair_share of gateway/scheduler/schedule.py.
-- - Fleets: the canceller of gateway/scheduler/schedule.py and one pass over a job of
--   gateway/scheduler/tasks/update_fleets_jobs_statuses.py, on top of Transitions and Breaker.
-- - Filler: gateway/scheduler/tasks/balance_filler_jobs.py; the creation of a job is the flag of a plan.
-- - Submit: FleetsJobSubmitter of gateway/scheduler/schedule.py. An error event has its code and message.
-- - Schedule: gateway/scheduler/tasks/schedule_fleets_jobs.py, a tick on top of FairShare and Submit. Ticks
--   says what one turn does, Quota what the tick knows of a project.
-- - Delivery: gateway/scheduler/tasks/outbox_destination.py. A drain asks the clocks, the kill signal and
--   the sender by the number of the question. Refinement is the abstract view of the outbox, Shrinks and
--   Ends the termination of a drain, Order its batches and waits, Channels the regions of a channel.
-- - Blocked: BlockedCloudResource of gateway/core/models.py. Matching compares its two queries, which meet
--   through the region of a CRN (Crn). Events is gateway/core/services/blocked_account_events.py, with a
--   payload as a function from its fields; Mirror, Replay, Filled and Constraints its theorems. Stops is
--   gateway/scheduler/tasks/stop_blocked_fleets_jobs.py, Reached and Reported its theorems.
-- - Consumer: gateway/core/ibm_cloud/event_streams/kafka_consumer.py, which hands each event to a handler.
--   Commits and rewinds are functions from partitions; a message that carries an error has no offset.
-- - BlockedEvents: gateway/scheduler/tasks/consume_blocked_account_events.py, Consumer with the service of
--   Blocked.Events as its handler. Parts and Batches say what a tick hands on, Redelivery what comes of it.
-- - Executor: gateway/core/services/background_executor.py. A cycle is changed under its lock, so that what
--   callers and threads do is a sequence of steps (Steps); a thread's turn is cut where it holds no lock.
--   Submits says how a submit ends, Changes and Turns what a step does to one pool, Queue what it does to
--   the tasks that wait there.
-- - Paths: the sanitizers of gateway/core/utils.py and gateway/api/utils.py, and
--   gateway/core/services/storage/path_builder.py. Folders is how a slash cuts a path, Layout where it leads.
-- - StopJob: gateway/api/use_cases/jobs/stop.py, on top of Transitions and Access, and retry_function of
--   gateway/core/utils.py. A request is several transactions; before each, others may change the tables.
--   Runtime is its calls of the Runtime API, Answers what it does to the tables, Texts how
--   its replies begin, Stops and Truth what they say of the tables.
-- - Profile: gateway/core/domain/compute_profile.py. Queries: the page of a user's jobs of
--   gateway/core/model_managers/jobs.py.
-- - Access: gateway/api/access_policies and gateway/core/domain/authorization.
-- - Base: names of the libraries, list functions, texts and a stable sort.
--
-- Loops are recursion on a list, but for the drain of a region (Delivery), which is on fuel: two more than
-- the rows that are due before the horizon are enough, since every batch leaves fewer of them.
--
-- Parameters, which may answer anything: the runner that cancels a fleet, the billing sender, the
-- workload mirror, the status that the task store reports, the broker's client and the handler of an
-- event, the number of fleets in a project, the Runtime API, the ray cluster that is asked to stop, the digits of Unicode, the order of a query's rows. The clock, uuid4, the Config
-- entries and what the Runtime API granted are arguments.
--
-- Not modelled: the HTTP views and the use cases but for the stop of a job, storage, the runners and the IBM Cloud clients, which are calls of other
-- systems; logs and metrics; the tasks of the scheduler other than the tick of
-- the Fleets jobs, the status pass, the balance, the outbox, the stops of blocked jobs and the consumer; the client
-- library.
mod Base
pub mod Models
pub mod Faults
pub mod Crn
pub mod Billing
pub mod Workload
pub mod Transitions
pub mod Breaker
pub mod FairShare
pub mod Access
pub mod Fleets
pub mod Executor
pub mod Paths
pub mod StopJob
pub mod Filler
pub mod Submit
pub mod Delivery
pub mod Blocked
pub mod Consumer
pub mod BlockedEvents
pub mod Profile
pub mod Queries
pub mod Schedule
mod Tests
