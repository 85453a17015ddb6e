-- ===== src/Billing.antt =====
-- src/services/billingSettings.js and src/services/billingService.js: who sells and at what tax, what
-- a payment costs, and what happens when it is paid.
pub mod Settings
pub mod Numbers
pub mod Changes
pub mod Quote
pub mod Fair
pub mod Prices
pub mod Till
pub mod Invoices
pub mod Receive
pub mod Settle
pub mod Checkout
pub mod Verify
pub mod Gateway
pub mod Recurring
pub mod Enrol
pub mod Recorded
pub mod Hooks
pub mod Ledger
pub mod Holds
pub mod Edits
pub mod Sound
pub mod Orders
pub mod Answers
pub mod News
pub mod Enrolled
pub mod Steps
pub mod Once
pub mod Audit
pub mod Settled
