-- ===== src/Submit.antt =====
-- app/services/submit.py: a money order is accepted in one transaction, sent to wedap outside any,
-- and moved on in a second one.
pub mod Request
pub mod ParseAck
pub mod Register
pub mod Judge
pub mod Conclude
