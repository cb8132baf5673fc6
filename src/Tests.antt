-- ===== src/Tests.antt =====
-- Concrete runs.
mod Replies
mod Connection
mod Children
mod Arguments
mod Daemon
mod Files
mod Conversation
mod Tools
mod Quota
mod Mapped
mod Descriptors
