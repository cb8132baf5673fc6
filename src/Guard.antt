-- ===== src/Guard.antt =====
-- The daemon's privileged calls. `Safe` says of a whole history, of the daemon and its children
-- together, that each call in it was made where it may be.
pub mod Rules
pub mod Reads
pub mod Child
pub mod Forks
pub mod Handlers
pub mod Sockets
pub mod Quota
pub mod Connection
use pve_lxc_syscalld.Base.{
  ℕ, Bool, true, false, List, [], ◌∷◌, Result, ok, err, panic, hang, ◌≡◌, if◌then◌else◌, eq_ℤ,
  minus_one,
}
use pve_lxc_syscalld.Kernel
use pve_lxc_syscalld.Kernel.{Call, Kernel, History, Action, exit}
use pve_lxc_syscalld.Kernel.Laws.{push_all}
use pve_lxc_syscalld.Process.PidFd.{PidFd}
use pve_lxc_syscalld.Process.UserCaps.{UserCaps, user_caps}
use pve_lxc_syscalld.SysMknod.{DevNumbers}
use pve_lxc_syscalld.SysMknod.Refusal.{IsSafeDevice}
use pve_lxc_syscalld.Takeover.{Handles, takeover}

-- A child begins where a fork succeeds and ends with its exit. Its calls stand before the parent's next.
abbrev pub in_child : Kernel → History → Bool
in_child k [] = false
in_child k (Call.fork ∷ h) = if eq_ℤ (k.reply h Call.fork).res minus_one then in_child k h else true
in_child k (exit s ∷ h) = false
in_child k (c ∷ h) = in_child k h

-- The identity is what `user_caps` has read of some process, cgroups and profile included.
abbrev pub IsRead : Kernel → UserCaps → Type 0
IsRead k u = (p : PidFd) × (h : History) × (h' : History) × (user_caps p k h ≡ (ok u, h'))

-- Right before this moment a child has taken on all of some process' identity.
abbrev pub Entered : Kernel → History → Type 0
Entered k h =
    (u : UserCaps) × (own : PidFd) × (f : Handles) × (h0 : History) × IsRead k u
    × (u.apply_uids ≡ true)
    × (h ≡ push_all (takeover u own f) h0)

-- Where a call may be made: what a container asks for, only right after a takeover, and a device node
-- only if it is one of the safe devices; what changes a process, only in a child; what serves the
-- connection and the children, only outside of one.
abbrev pub Permitted : DevNumbers → Kernel → Call → History → Type 0
Permitted d k (Call.mknodat fd path mode dev) h =
    (in_child k h ≡ true) × IsSafeDevice d mode dev × Entered k h
Permitted d k (Call.quotactl cmd special id addr) h = (in_child k h ≡ true) × Entered k h
Permitted d k (Call.pwrite fd content offset) h = in_child k h ≡ true
Permitted d k (Call.write_all fd content) h = in_child k h ≡ true
Permitted d k (Call.write_path path content) h = in_child k h ≡ true
Permitted d k (Call.setns fd t) h = in_child k h ≡ true
Permitted d k (Call.fchdir fd) h = in_child k h ≡ true
Permitted d k (Call.chroot path) h = in_child k h ≡ true
Permitted d k (Call.chdir path) h = in_child k h ≡ true
Permitted d k (Call.umask m) h = in_child k h ≡ true
Permitted d k (Call.set_securebits bits) h = in_child k h ≡ true
Permitted d k (Call.setegid id) h = in_child k h ≡ true
Permitted d k (Call.setfsgid id) h = in_child k h ≡ true
Permitted d k (Call.seteuid id) h = in_child k h ≡ true
Permitted d k (Call.setfsuid id) h = in_child k h ≡ true
Permitted d k (Call.capset v pid sets) h = in_child k h ≡ true
Permitted d k (Call.write_pipe content) h = in_child k h ≡ true
Permitted d k (Call.exit status) h = in_child k h ≡ true
Permitted d k Call.fork h = in_child k h ≡ false
Permitted d k (Call.set_status_flags flags) h = in_child k h ≡ true
Permitted d k Call.get_status_flags h = in_child k h ≡ true
Permitted d k Call.recvmsg h = in_child k h ≡ false
Permitted d k (Call.sendmsg content) h = in_child k h ≡ false
Permitted d k Call.shutdown h = in_child k h ≡ false
Permitted d k (Call.waitpid pid) h = in_child k h ≡ false
Permitted d k (Call.kill pid signal) h = in_child k h ≡ false
Permitted d k (Call.remove_file path) h = in_child k h ≡ false
Permitted d k Call.socket h = in_child k h ≡ false
Permitted d k (Call.bind address) h = in_child k h ≡ false
Permitted d k (Call.listen backlog) h = in_child k h ≡ false
Permitted d k Call.readable h = in_child k h ≡ false
Permitted d k Call.writable h = in_child k h ≡ false
Permitted d k Call.accept4 h = in_child k h ≡ false
Permitted d k Call.register_socket h = in_child k h ≡ false
Permitted d k (Call.spawn fd) h = in_child k h ≡ false
Permitted d k (Call.sd_notify state) h = in_child k h ≡ false
Permitted d k (Call.read size) h = in_child k h ≡ false
Permitted d k (Call.write content) h = in_child k h ≡ true
Permitted d k (Call.close fd) h = in_child k h ≡ false
Permitted d k Call.seccomp_sizes h = in_child k h ≡ false
Permitted d k c h = Unit

abbrev pub Safe : DevNumbers → Kernel → History → Type 0
Safe d k [] = Unit
Safe d k (c ∷ h) = Permitted d k c h × Safe d k h

-- Safe so far, and at this moment in a child or not.
abbrev pub Within : DevNumbers → Kernel → Bool → History → Type 0
Within d k b h = Safe d k h × (in_child k h ≡ b)

-- An action that does not return leaves a safe history; any other is where it was, too.
abbrev pub After {ℓ} : {A : Type ℓ} → DevNumbers → Kernel → Bool → Result A × History → Type 0
After d k b (hang, h) = Safe d k h
After d k b (ok a, h) = Within d k b h
After d k b (err e, h) = Within d k b h
After d k b (panic, h) = Within d k b h

-- The action is safe wherever it is begun in a child, or wherever outside of one.
pub record Keeps {ℓ} {A : Type ℓ} (d : DevNumbers) (k : Kernel) (b : Bool) (m : Action A)
    : Type 0 where
  pub run : (h : History) → Within d k b h → After d k b (m k h)
