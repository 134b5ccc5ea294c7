-- ===== src/Ships.antt =====
-- The delivery registry, registry/ships.py.
pub mod Rows
pub mod Tables
pub mod Authority
pub mod Attempts
pub mod Purge
pub mod Versions
pub mod Writes
pub mod Grants
pub mod Conflicts
pub mod Endings
pub mod Journal
pub mod Single
pub mod Updates
pub mod Steps
pub mod Started
pub mod Remaining
pub mod Purged
pub mod Retries
pub mod Candidates
mod Tests
