-- ===== src/Workflow.antt =====
-- daemon/internal/workflow/modeler.go: the compiler from captured flows to a workflow, and the runner
-- of workflows.
pub mod Paths
pub mod Sources
pub mod Templates
pub mod AuthMaterial
pub mod Precedence
pub mod Asserts
pub mod Run
pub mod Compiler
pub mod Rounds
pub mod Order
mod Examples
mod RunExamples
