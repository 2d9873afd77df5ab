-- ===== src/Commands/Race.antt =====
-- The last step of a dispatch against the messages of agents that are faster.
