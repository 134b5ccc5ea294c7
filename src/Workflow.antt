-- ===== src/Workflow.antt =====
-- The workflow document, its validation and its evaluation, workflow_definitions.py.
pub mod Syntax
pub mod Graph
pub mod Acyclic
pub mod Cycles
pub mod History
pub mod Engine
pub mod References
pub mod Delivery
pub mod Escapes
pub mod Visits
pub mod Edges
pub mod Entries
pub mod Grants
pub mod Captures
pub mod CaptureEntries
pub mod Values
pub mod Equal
pub mod Predicates
pub mod Kleene
pub mod Decisions
pub mod Routes
pub mod Frozen
pub mod Samples
mod Tests
pub mod Parse
pub mod Print
pub mod Reload
pub mod Settled
pub mod Accepted
