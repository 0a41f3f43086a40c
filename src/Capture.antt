-- ===== src/Capture.antt =====
-- Captures: which suffixes may be delivered, and why a journey failed.
pub mod Origins
pub mod Addresses
pub mod Confirmed
pub mod Closed
pub mod Edge
pub mod Landing
pub mod Suffix
pub mod Outcome
pub mod Query
pub mod Policy
pub mod Evidence
