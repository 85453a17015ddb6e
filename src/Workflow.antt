-- ===== src/Workflow.antt =====
-- The workflows of src/services/workflow: the steps of a flow (`Node`), the words of a step
-- (`Fill`), one turn of a flow (`Core`), and the check of a flow before it is saved (`Schema`).
pub mod Node
pub mod Fill
pub mod Core
pub mod Schema
pub mod Ends
pub mod Saved
pub mod Turns
