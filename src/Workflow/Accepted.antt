-- ===== src/Workflow/Accepted.antt =====
-- What the parser of workflow_definitions.py makes sure of in a definition.
pub mod Names
pub mod Bounds
pub mod Whole
pub mod Linked
