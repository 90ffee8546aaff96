-- ===== src/Fixflow.antt =====
-- go/internal/agent/fixflow: the engine behind the fixing agents.
pub mod Keys
pub mod Driver
pub mod Engine
