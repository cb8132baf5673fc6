-- ===== src/Process.antt =====
-- src/process: what the daemon reads of the process that made a system call, and how a child of the
-- daemon takes on that process' permissions.
pub mod Text
pub mod IdMap
pub mod CGroups
pub mod Status
pub mod PidFd
pub mod UserCaps
