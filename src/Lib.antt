-- ===== src/Lib.antt =====
-- Verification library of the agent orchestrator: the parts that decide what is sent to a customer,
-- when, how often, and at what cost.
--
-- Messages come in from the channel adapters through ingestion (Inbox/Ingestion) into the inbox
-- table, from which triage claims them (Inbox/Queue). Its drafts wait in the outbound queue for a
-- founder's decision (Outbound/Drafts); approved rows are claimed by the drainer (Outbound/Queue,
-- Outbound/Drainer), which passes them through the send window (Outbound/SendWindow), the circuit
-- breaker, the rate cap and the recipient's lease, and hands them to an adapter. Messages scheduled
-- for later (Scheduling) join that queue when they are due. Calls of language models go through a
-- daily budget (Llm/Budget). What the founder types next in a thread is decided by the capture that
-- is armed on it (Triage/Markers), which may replace the text of a draft (Triage/DraftReview), and by
-- the question asked (Query/PendingAsk). A customer who asks to talk gets a meeting: the founder is
-- offered free slots (Triage/Slots) and the request is booked or becomes a task (Triage/Meetings).
-- Interval workers drive all of it (Runtime).
--
-- Which file models what:
--   Outbound/Rows, Outbound/Queue   src/outbound/outbound-repo.ts: claimDue, reclaimStuck, markSent,
--                                   retryLater, deferUntil, failReview, the counts and the lease
--   Outbound/Drafts                 the drafts of the same file with the two transactions of
--                                   src/decisions/decisions.ts that resolve a decision
--   Outbound/SendWindow             src/outbound/send-window.ts
--   Outbound/Drainer                src/adapters/outbound/outbound-drainer.factory.ts and
--                                   src/outbound/send-error.ts
--   Outbound/Lifecycle              every interleaving of many drainer sessions, each write a step of
--                                   its own, with crashes and with the queue's other writers
--   Llm/Budget                      src/adapters/llm/llm-budget.ts
--   Llm/Pricing, Llm/Router         src/adapters/llm/pricing.ts, llm-router.ts and errors.ts beside it
--   Inbox/Queue, Inbox/Ingestion    src/inbox/inbox-repo.ts and src/inbox/ingestion.ts
--   Inbox/Steps                     every sequence of the operations of those two
--   Scheduling                      src/scheduling/scheduling-repo.ts: scheduled actions, and every
--                                   interleaving of their operations and the drainer's writes
--   AppState                        src/db/app-state.ts
--   Triage/Markers                  src/triage/thread-markers.ts
--   Triage/DraftReview              src/triage/draft-review.ts
--   Triage/Slots                    src/triage/meeting-slots.ts
--   Triage/Meetings                 src/triage/meeting-repo.ts, meeting-scheduler.ts, and the handler of
--                                   its taps and the fallback worker beside them
--   FounderApp/CalendarLayout       app/src/lib/calendarLayout.ts: lanes and free gaps
--   Query/PendingAsk                src/query/pending-ask.ts and parseOptionData of
--                                   src/triage/decision-handler.ts
--   Runtime/Retry                   src/adapters/shared/retry.ts
--   Runtime/Registry, Worker        src/workers/worker-registry.ts, src/workers/worker-runner.ts
--   Runtime/Shutdown                src/runtime/graceful-shutdown.ts, src/runtime/advisory-worker.ts
--   Channels                        src/adapters/channel-registry.ts
-- Each component's definitions keep the source's names in snake case; child modules hold proofs.
--
-- A table is the list of its rows in the order of their keys, and a statement is a function on it;
-- a transaction that throws leaves the tables as they were. Rows that another session has locked
-- are a parameter of a claim, as are the clock, luxon's calendar, the operators on jsonb, the
-- channel adapters, the texts of JSON, JavaScript's functions on strings and the providers'
-- replies. Instants are milliseconds and amounts of money are millionths of a dollar, both natural
-- numbers. Loops are structural, over lists or over a bound that the source writes (the fourteen
-- days of the send window's scan, the attempts of a retry). The one exception is the inner loop of
-- generateSlots: it has fuel for every busy interval, every soft hold and every offer of the day,
-- which is enough since each round passes one of them. The handlers of meetings and of draft review
-- run one after another, and what they are answered from outside is an input; Triage/Meetings/Waits
-- takes their statements in any order, also while the calendar is asked. Not modelled:
-- statements that fail for a reason other than those written out, logging, the texts of notices,
-- the wire formats of channels and of language models, the console, the application under web, and
-- the screens of the one under app.
mod Base
pub mod Outbound
pub mod Llm
pub mod Inbox
pub mod Runtime
pub mod Channels
pub mod Scheduling
pub mod AppState
pub mod Triage
pub mod Query
pub mod FounderApp
