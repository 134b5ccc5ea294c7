-- ===== src/Workflow/Print.antt =====
-- The canonical document of a workflow, workflow_definitions.py: from the typed document to plain data.
pub mod Values
pub mod Texts
pub mod Routes
pub mod Contracts
pub mod Gates
pub mod Steps
pub mod Definitions
