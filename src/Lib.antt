-- ===== src/Lib.antt =====
-- The backend of a shared WhatsApp inbox: automatic flows, the queue of outgoing messages,
-- receipts, subscriptions and taxes. The program is a set of services over a database; this
-- development models the ones below and states what makes them right.
--
-- Workflow (src/services/workflow). `Node` has the steps as schema.js's `cleanNode` leaves them
-- and `edgesOf`; `Fill` has `fill` and `askText` of core.js; `Core` has `run`, `begin`, `awaiting`
-- and `resume` of core.js, with the loop on fuel; `Schema` has the part of `cleanWorkflow` that
-- looks at the arrows: repairs and gaps (`Graph`), circles and unreachable steps (`Walk`).
-- Executing a flow's actions is outside. A look-up of a step finds also what every JavaScript
-- object has (`bare`). `Ends`, `Saved`, `Turns`, `Schema/Sound` and `Schema/Search` are proofs.
--
-- Queue (src/services/queue/messageQueue.js and `handleAckEvent` of
-- src/services/messageService.js). `Tables` has the tables as lists of rows; `Claim` the first
-- transaction of `dispatchMessage`, `Settle` what follows the provider's answer, `Outbox`
-- `publishOutbox` and `recoverInterruptedDispatches`, `Ack` the receipts. A transaction is one
-- function on the database; the time, the die of the pause and the advisory lock are what a
-- `World` gives. The provider's answer is an argument. `Later` has workers, receipts and the
-- publisher as the steps of one relation, with the jobs that are claimed and not settled; `Rests`,
-- `Flight`, `Passes`, `Safety` and `Receipts` are proofs.
--
-- Gst (src/services/gst.js). `Number` has the GST numbers, `Tax` the tax of an amount in whole
-- paise, `Profile` a buyer's details, `Words` an amount in words; `Typos` is a proof about
-- `Number`.
--
-- Subscription (src/services/subscriptionService.js, plans.js and dates.js). `Dates` has days as
-- year, month and day with the calendar that JavaScript's dates have (a date of more than four
-- digits of a year is a day that `is_day` refuses), `Plans` the plan a company is on and
-- `isLapsed`, `View` `subscriptionView`, `Payment` `recordPayment`, `Change` `scheduleChange`,
-- `clearScheduledChange` and `applyDueChanges`, `Reminders` `sendReminders`; the jobs are modelled
-- for one company's row. The plans are an argument, in the order of `sortOrder`; `Catalogue` has
-- `updatePlan`, which edits them. `Calendar`, `Periods`, `Keys`, `Downgrades` and `Naming` are
-- proofs.
--
-- Matching (src/solutions/real-estate/matching.js). `Listing` has a prospect, a property and
-- `matchability`, `Evaluate` `evaluate`, `Search` `matchProperties`. `normalizeText` and the order
-- of references are arguments; `Promise` and `Counts` are proofs.
--
-- Router (src/services/ai/router.js). `Provider` has the providers, what the router remembers,
-- `judge` and `balance`; `Complete` has `complete`, with what each request comes to, and when, as
-- an argument; `Privacy` is a proof.
--
-- Billing (src/services/billingService.js, billingSettings.js and websiteCheckout.js, over the
-- tables of db/migrations/020_billing.js). `Settings` has who sells and at what tax, `Quote` what
-- a payment costs, `Till` the tables, `Invoices` `issueInvoice`, `Receive` `savePayment` and the
-- comparison of a payment with its order, `Settle` `settleOrder` and what else it calls,
-- `Checkout` and `Verify` the orders of a company and of a buyer on the website, `Gateway` refunds
-- and the reconciliation, `Recurring` and `Enrol` autopay, `Recorded` invoices for payments
-- recorded by hand, `Hooks` the webhook, `Audit` the check of invoice numbers in `billingAudit`. A
-- transaction is one function on the till; what throws leaves the till before it. The gateway's
-- answers and the check of a signature are arguments. `Steps` has all of these as the steps of one
-- relation; `Ledger` says what holds of the tables; `Numbers`, `Changes`, `Fair`, `Prices`,
-- `Edits`, `Holds`, `Sound`, `Orders`, `Answers`, `News`, `Enrolled`, `Once` and `Settled` are
-- proofs. Amounts are whole paise.
--
-- Health (src/services/numberHealth.js) has `judge`, how a linked number is doing. Limits
-- (src/services/limitsService.js) has what a plan allows of contacts and broadcasts; what is used
-- is an argument.
--
-- Common has texts as lists of UTF-16 units, lists, results and integers over the native numbers;
-- Examples has runs at small inputs.
--
-- Fuel: the loop of `run` has the 61 rounds that MAX_STEPS leaves, where running out is the
-- source's own error; `walk` has the number of steps that a look-up finds, `free_id` one more than
-- the steps, and `whole_words` one more than the amount. Not modelled: errors of the database,
-- `toUpperCase` and `toLowerCase` outside ASCII, identifiers that are not numbers, webhooks and
-- socket messages, and the services that are not named here.
pub mod Common
pub mod Workflow
pub mod Gst
pub mod Queue
pub mod Subscription
pub mod Matching
pub mod Router
pub mod Billing
pub mod Health
pub mod Limits
pub mod Examples
