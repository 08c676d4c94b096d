-- ===== src/Kv.antt =====
-- internal/kv: the replicated state machine.
pub mod StateMachine
