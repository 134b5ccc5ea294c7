-- ===== src/Workflow/Settled.antt =====
-- The readers of Parse, workflow_definitions.py, and their fuel: when they come to an end.
pub mod Values
pub mod Predicates
pub mod Texts
pub mod Routes
pub mod Contracts
pub mod Gates
pub mod Steps
pub mod Definitions
