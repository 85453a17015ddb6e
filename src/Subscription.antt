-- ===== src/Subscription.antt =====
-- src/services/subscriptionService.js with src/services/dates.js and src/services/plans.js: the plan
-- a company pays for, the period of a payment, and what happens when it ends.
pub mod Dates
pub mod Calendar
pub mod Plans
pub mod View
pub mod Payment
pub mod Periods
pub mod Change
pub mod Keys
pub mod Downgrades
pub mod Reminders
pub mod Catalogue
pub mod Naming
