-- ===== src/Lib.antt =====
-- pve-lxc-syscalld: the daemon that makes `mknod`, `mknodat` and `quotactl` on behalf of containers.
--
-- An lxc monitor hands the daemon a system call that seccomp intercepted, as a datagram with two
-- descriptors: the /proc directory of the calling process and its memory. The daemon checks the call,
-- forks a child that takes on the identity of the caller, makes the call there, and answers with the
-- outcome. Each file models the parts of the program as follows.
--
-- Base and its children: numbers, bytes, words of fixed width, errors and results, with their laws. An
--   unsigned word is a number, a signed one a ℤ; sums that could wrap are written out as they wrap.
--   `Result` has the success and the error of Rust's, and `panic` for a panic and `hang` for a loop that
--   used up its rounds. Libc: the constants of the C library for x86_64.
-- Kernel: the boundary. The system calls, with what they pass, are the type `Call`. A `Kernel` is any
--   function from the calls made so far and the next one to a reply; so a theorem about every kernel
--   covers every behaviour of the system, of other processes and of the monitor. An `Action` is code
--   that makes calls: it returns an outcome and the history of calls, newest first. `c_result!` and
--   `c_try!` of src/macros.rs stand here.
-- Daemon: src/main.rs. `start` is `main`; its parser of arguments, with the usage text, is
--   Daemon/Arguments, and `do_main` ends in `accept_loop`, which starts a task for each client.
-- Client: src/client.rs. `main`, `main_do` (whose loop is `serve`), `handle_syscall`,
--   `handle_syscall_do` (whose last match is `run_syscall`) and `wrap_error`. `first_main` is the task of
--   the process' first client, which finds the sizes of the kernel's structures. Client/Conversation:
--   the messages of a client and their answers as a relation. Client/Due: when an answer is due, which
--   Client/Replies needs of all that is sent. Client/Ending: when a task comes to an outcome.
-- LxcSeccomp: src/lxcseccomp.rs. `ProxyMessageBuffer` and its methods; `recv` is cut into `reset`,
--   `scatter` (the four I/O vectors) and `accept_message`; Descriptors takes the two descriptors out of
--   the control message, Args has the accessors of arguments. The drop of a message's descriptors is
--   written out: by `reset`, by an error or a panic on the way (`owning` of Kernel), and with the buffer.
-- Seccomp: src/seccomp.rs. The notification structures by the layout of their memory, and `get_checked`.
-- Io: src/io/mod.rs, the loops of `wrap_read` and `wrap_write`. Io/SeqPacket: src/io/seq_packet.rs.
--   Io/Pipe: the making of pipes and the polls of src/io/pipe.rs. Io/Cmsg: src/io/cmsg.rs; its child
--   Messages has the layout of control messages in memory.
-- Tools: src/tools.rs, `set_fd_nonblocking` and `vec::uninitialized`. Tools/PollFn: src/poll_fn.rs, where
--   the closure is a function on the state that it captures.
-- Syscall: src/syscall.rs. SysMknod: src/sys_mknod.rs. SysQuotactl: src/sys_quotactl.rs; the lines that
--   its handlers share are functions (`run_as_caller`, `fetch`, `submit`, `map_id`).
-- Fork: src/fork.rs. The calls of the child and of the parent follow one another in the history; nothing
--   but the bytes in the pipe comes back from the child.
-- Process: src/process. PidFd reads the files of a /proc directory, Text, Status and CGroups parse them
--   from bytes, IdMap maps ids, UserCaps is what a child takes on.
-- Capability, NsFd, AppArmor: src/capability.rs, src/nsfd.rs, src/apparmor.rs.
-- Takeover: what it means to take on an identity, as a list of calls, for `UserCaps::apply`. Guard:
--   where each call may be made; its children follow the modules of the program.
-- Frame: what is done aside from the messages of a client, and the kernels that hold nothing up for all
--   rounds (`IsFair`), for which it comes to an outcome. Ledger: the descriptors that come with the
--   messages, which of them are closed and when; its children follow the way of a message.
-- Tests: a kernel with one message, and runs of the theorems at concrete inputs.
--
-- Rounds: four loops go on until the kernel replies otherwise, `serve`, `wrap_loop`, `wait_loop` and
-- `accept_loop`. A `Kernel` says for how many rounds; a loop that uses them up ends in `hang`. A socket or
-- a child needs one round more than there are replies that make its loop go on, `serve` one more than
-- there are messages, and `accept_loop` one for each client. All other recursion is structural.
--
-- Parameters: the split of a device number into major and minor (the nix crate's, the record
-- `DevNumbers`) and the address of a path (`unix_addr`), the runtime's `poll_read_ready`,
-- `poll_write_ready` and `ReadBuf::advance`, the sizes that
-- `SeccompNotifSizes::get_checked` found, for clients after the first, `OFlag::from_bits` of the nix crate
-- (a field of `Kernel`), and uninitialised memory: that of the cookie buffer and what the allocator
-- gives.
--
-- Not modelled: the threads of src/main.rs and how the tasks of clients interleave, each of which is
-- modelled on its own; the closing of descriptors that the program opens itself, when their owner is
-- dropped (that of those it receives is modelled); the types that only wrap
-- a descriptor or mark a direction (`PipeFd`, src/io/rw_traits.rs, `FromFd`), which
-- are the descriptor itself; what is printed, but for the usage text; the texts of errors.

pub mod Base
pub mod Frame
pub mod Ledger
pub mod Libc
pub mod Kernel
pub mod Capability
pub mod NsFd
pub mod AppArmor
pub mod Process
pub mod Seccomp
pub mod Io
pub mod LxcSeccomp
pub mod Syscall
pub mod Fork
pub mod Takeover
pub mod SysMknod
pub mod SysQuotactl
pub mod Guard
pub mod Client
pub mod Daemon
pub mod Tools
pub mod Tests
