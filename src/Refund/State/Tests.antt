-- ===== src/Refund/State/Tests.antt =====
-- Instances of the theorems on the state machine.
