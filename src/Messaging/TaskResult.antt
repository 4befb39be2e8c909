-- ===== src/Messaging/TaskResult.antt =====
-- am++/message_queue.hpp, scheduler::task_result: what a task says when it returns.
pub data TaskResult : Type 0 where
  tr_remove_from_queue tr_idle tr_busy tr_busy_and_finished : TaskResult
