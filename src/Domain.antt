-- ===== src/Domain.antt =====
-- app/domain: the vocabulary of order states, of the typed money-write answers and of the
-- business sequence number.
pub mod States
pub mod BizSeq
pub mod MoneyWrite
