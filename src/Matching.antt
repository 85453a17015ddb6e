-- ===== src/Matching.antt =====
-- src/solutions/real-estate/matching.js: what a prospect looks for against a company's listings.
pub mod Listing
pub mod Evaluate
pub mod Promise
pub mod Search
pub mod Counts
