-- ===== src/Ledger.antt =====
-- The descriptors that come with the messages of a client, from src/lxcseccomp.rs on: which were handed to
-- the daemon, and which it has closed.
pub mod Wrapped
pub mod Rules
pub mod Balance
pub mod Owned
pub mod Answering
pub mod Receiving
pub mod Connection
use pve_lxc_syscalld.Base.{
  ℕ, zero, suc, ◌+◌, ◌<◌, ◌≡◌, ℤ, minus_one, eq_ℤ, List, [], ◌∷◌, ◌++◌, take, Bool, true, false,
  if◌then◌else◌,
}
use pve_lxc_syscalld.Kernel.{Call, Reply, Kernel, History, Action}
use pve_lxc_syscalld.Io.Cmsg.{capacity}
use pve_lxc_syscalld.LxcSeccomp.{fds_wrapped}

-- What `recv` would take for the descriptors of a message.
abbrev pub rights_of : Reply → List ℤ
rights_of r = if eq_ℤ r.res minus_one then [] else fds_wrapped (take (capacity 8) r.control)

abbrev pub brings : Call → Reply → List ℤ
brings Call.recvmsg r = rights_of r
brings c r = []

abbrev pub closes : Call → List ℤ
closes (Call.close fd) = fd ∷ []
closes c = []

abbrev pub handed : Kernel → History → List ℤ
handed k [] = []
handed k (c ∷ h) = brings c (k.reply h c) ++ handed k h

abbrev pub closed : History → List ℤ
closed [] = []
closed (c ∷ h) = closes c ++ closed h

abbrev pub count : ℤ → List ℤ → ℕ
count fd [] = 0
count fd (x ∷ xs) = let rest = count fd xs in if eq_ℤ fd x then suc rest else rest

-- These are open: handed over more often than closed.
abbrev pub AllOpen : Kernel → History → List ℤ → Type 0
AllOpen k h [] = Unit {0}
AllOpen k h (fd ∷ fds) = (count fd (closed h) < count fd (handed k h)) × AllOpen k h fds

-- Each `close` was of a descriptor that was open then.
abbrev pub EachOpen : Kernel → History → Type 0
EachOpen k [] = Unit {0}
EachOpen k (c ∷ h) = AllOpen k h (closes c) × EachOpen k h

-- Each descriptor that was handed over is closed, or else among these, and each was closed while it was open.
pub record Balanced (k : Kernel) (h : History) (fds : List ℤ) : Type 0 where
  pub balance : (fd : ℤ) → count fd (handed k h) ≡ count fd (closed h) + count fd fds
  pub each_open : EachOpen k h

-- What comes between the two neither brings a descriptor nor closes one.
abbrev pub Same : Kernel → History → History → Type 0
Same k h h' = (handed k h' ≡ handed k h) × (closed h' ≡ closed h) × (EachOpen k h → EachOpen k h')
