-- ===== src/Queue.antt =====
-- src/services/queue/messageQueue.js and the acknowledgements of src/services/messageService.js:
-- the tables, one claim of a message, what a send leaves, and receipts.
pub mod Tables
pub mod Claim
pub mod Ack
pub mod Settle
pub mod Outbox
pub mod Flight
pub mod Passes
pub mod Safety
pub mod Rests
pub mod Later
pub mod Receipts
