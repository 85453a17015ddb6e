-- ===== src/Examples.antt =====
-- Runs of the operations on small inputs, and the theorems at them.
mod Flows
mod Records
mod Renewals
mod Downgrades
mod Renames
mod Payments
mod Homes
mod Models
mod Lines
