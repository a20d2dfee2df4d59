-- ===== src/Conversation.antt =====
-- conversation_repository.py: threads and the runs in them.
pub mod Threads
pub mod Runs
pub mod Operations
pub mod Cancellation
