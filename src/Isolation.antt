-- ===== src/Isolation.antt =====
-- Who may write a task's workspace, isolation/guard.py.
pub mod Guard
pub mod Ledger
pub mod Closing
pub mod Displacing
pub mod Steps
pub mod Admission
pub mod Exclusion
pub mod Promises
pub mod Freed
pub mod Brackets
mod Tests
