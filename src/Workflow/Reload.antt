-- ===== src/Workflow/Reload.antt =====
-- The readers of Parse and the documents of Print together, workflow_definitions.py.
pub mod Values
pub mod Predicates
pub mod Texts
pub mod Routes
pub mod Contracts
pub mod Gates
pub mod Choices
pub mod Steps
pub mod Bodies
pub mod Effects
pub mod Wholes
pub mod Definitions
mod Tests
