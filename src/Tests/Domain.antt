-- ===== src/Tests/Domain.antt =====
-- Witnesses for the domain's own laws.
