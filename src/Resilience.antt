-- ===== src/Resilience.antt =====
-- Resilience primitives (app/resilience.py): bounded retries and a circuit breaker. Times and
-- delays are whole numbers of one unit; what the wrapped call does is a parameter.
pub mod Retry
pub mod Breaker
