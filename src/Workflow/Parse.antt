-- ===== src/Workflow/Parse.antt =====
-- The readers of a workflow document, workflow_definitions.py: from plain data to the typed document.
pub mod Slug
pub mod Fields
pub mod Values
pub mod Predicates
pub mod Texts
pub mod Depth
pub mod Newline
pub mod Routes
pub mod Sorting
pub mod Contracts
pub mod Gates
pub mod Steps
pub mod Definitions
