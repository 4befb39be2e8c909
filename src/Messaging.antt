-- ===== src/Messaging.antt =====
-- am++/message_queue.hpp: the task scheduler and the queues between its tasks.
pub mod TaskResult
pub mod Scheduler
pub mod MessageQueue
