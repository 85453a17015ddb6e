-- ===== src/Router.antt =====
-- src/services/ai/router.js: which provider of a language model is asked.
pub mod Provider
pub mod Complete
pub mod Privacy
