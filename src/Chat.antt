-- ===== src/Chat.antt =====
-- A task's chat session (src/agents/chat, src/utils/task_input_queue.py).
pub mod Lifecycle
pub mod InputQueue
pub mod Session
pub mod Registry
mod Tests
