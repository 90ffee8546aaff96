-- ===== src/Tasks.antt =====
-- go/internal/tasks: the transports between a webhook and the dispatcher.
pub mod Options
pub mod InProcess
pub mod CloudTasks
