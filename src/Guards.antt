-- ===== src/Guards.antt =====
-- app/api/deps.py: what a request has to pass before its money flow starts.
pub mod Amount
pub mod Details
pub mod Required
