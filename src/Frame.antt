-- ===== src/Frame.antt =====
-- What the daemon does aside from its clients' messages: neither to receive one or to send one, nor to close a
-- descriptor. The children follow the modules of the program, as those of Guard do.
pub mod Returns
pub mod Parsed
pub mod Rules
pub mod Reads
pub mod Child
pub mod Forks
pub mod Handlers
pub mod Quota
pub mod Dispatch
use pve_lxc_syscalld.Base.{
  ℕ, zero, suc, ◌<◌, ◌≡◌, ◌⊎◌, ◌∷◌, ℤ, minus_one, eq_ℤ, Bool, true, false, not, ◌&&◌, if◌then◌else◌,
  is_hang, Bytes,
}
use pve_lxc_syscalld.Libc.{eintr}
use pve_lxc_syscalld.Io.{would_block}
use pve_lxc_syscalld.Kernel.{
  Call, Kernel, History, Action, Reply, recvmsg, sendmsg, close, waitpid, readable, writable,
}

abbrev pub is_aside : Call → Bool
is_aside recvmsg = false
is_aside (sendmsg content) = false
is_aside (close fd) = false
is_aside c = true

-- Only such calls come between the two.
pub data Apart (h : History) : History → Type 0 where
  same : Apart h h
  aside : (c : Call) {h' : History} → is_aside c ≡ true → Apart h h' → Apart h (c ∷ h')

-- The attempt would block again: the wait before it succeeds, and the call is blocked.
abbrev pub is_held_up : Kernel → Call → Call → History → Bool
is_held_up k ready c h =
    not (eq_ℤ (k.reply h ready).res minus_one) && would_block (k.reply (ready ∷ h) c)

-- One of the next `n + 1` attempts is not held up.
abbrev pub Passes : Kernel → Call → Call → ℕ → History → Type 0
Passes k ready c zero h = is_held_up k ready c h ≡ false
Passes k ready c (suc n) h = (is_held_up k ready c h ≡ false) ⊎ Passes k ready c n (c ∷ ready ∷ h)

-- The wait was interrupted, or it was another child that ended.
abbrev pub is_passed_over : ℤ → Reply → Bool
is_passed_over pid r = if eq_ℤ r.res minus_one then eq_ℤ r.errno eintr else not (eq_ℤ r.res pid)

-- One of the next `n + 1` waits is not of that kind.
abbrev pub Reaps : Kernel → ℤ → ℕ → History → Type 0
Reaps k pid zero h = is_passed_over pid (k.reply h (waitpid pid)) ≡ false
Reaps k pid (suc n) h =
    (is_passed_over pid (k.reply h (waitpid pid)) ≡ false) ⊎ Reaps k pid n (waitpid pid ∷ h)

-- The socket is not blocked and no wait for a child goes on for as many attempts as there are rounds.
pub record IsFair (k : Kernel) : Type 0 where
  pub receives : (h : History) → (n : ℕ) × (n < k.rounds) × Passes k readable recvmsg n h
  pub sends :
      (content : Bytes) (h : History)
      → (n : ℕ) × (n < k.rounds) × Passes k writable (sendmsg content) n h
  pub children : (pid : ℤ) (h : History) → (n : ℕ) × (n < k.rounds) × Reaps k pid n h

-- The action makes only calls aside from the messages, and it ends in an outcome if the kernel is fair.
pub record Frames {ℓ} {A : Type ℓ} (m : Action A) : Type 0 where
  pub run : (k : Kernel) (h : History) → Apart h (m k h).1
  pub returns : (k : Kernel) (h : History) → IsFair k → is_hang (m k h).0 ≡ false
