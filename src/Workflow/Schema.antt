-- ===== src/Workflow/Schema.antt =====
-- src/services/workflow/schema.js, `cleanWorkflow` from the moment its steps are cleaned one by one:
-- arrows to steps that do not exist, gaps, circles, and steps that nothing reaches. The names that
-- every JavaScript object has (`constructor`) are left out: `nodes[id]` finds them.
pub mod Graph
pub mod Walk
pub mod Sound
pub mod Search
