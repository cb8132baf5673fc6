-- ===== src/SysQuotactl/Child.antt =====
-- What a child of src/sys_quotactl.rs does: its one `quotactl`, and what it writes to the caller's memory.
use pve_lxc_syscalld.Base.{
  length, ℕ, ◌≡◌, ◌⊎◌, inl, inr, refl, ap, arith, ℤ, pos, minus_one, eq_ℤ, Bytes, ◌∷◌, replicate,
  Bool, true, false, if◌then◌else◌, Option, some, ok,
}
use pve_lxc_syscalld.Kernel.{
  Action, Call, Reply, Kernel, History, ◌>>◌, ◌>>=◌, lift, pure, c_try, pwrite,
  quotactl as sys_quotactl,
}
use pve_lxc_syscalld.Kernel.Laws.{bind_ok}
use pve_lxc_syscalld.LxcSeccomp.{ProxyMessageBuffer, mem_fd_of}
use pve_lxc_syscalld.LxcSeccomp.Args.{mem_write_struct}
use pve_lxc_syscalld.Process.IdMap.{IdMap}
use pve_lxc_syscalld.Process.UserCaps.{UserCaps}
use pve_lxc_syscalld.Syscall.{SyscallStatus, done, failed, sc_libc_try}
use pve_lxc_syscalld.SysMknod.{become}
use pve_lxc_syscalld.SysMknod.AsCaller.{taken_over, become_makes_takeover}
use pve_lxc_syscalld.SysQuotactl.{fetch, submit, fetch_next, translate_next, size_of_nextdqblk}
use pve_lxc_syscalld.SysQuotactl.Answer.{filled, length-filled, length-translate_next}
use pve_lxc_syscalld.SysQuotactl.AsCaller.{Body, fetches, submits, passes, fetches_next}

writes :
    (msg : ProxyMessageBuffer) (addr : ℕ) (content : Bytes) (k : Kernel) (h h' : History)
    → mem_write_struct msg addr content k h ≡ (ok tt, h')
    → (fd : ℤ) × (msg.mem_fd ≡ some fd) × (h' ≡ pwrite fd content addr ∷ h)
unfolding mem_write_struct mem_fd_of
writes msg addr content k h h' e =
    let (fd, h1, e1, f1) = bind_ok (lift (mem_fd_of msg)) _ k h e in
    let (r, h2, e2, f2) = bind_ok (c_try (pwrite fd content addr)) _ k h1 f1 in
    (fd, ground (arith, e1), ground (arith, e1, e2, f2))

module _ (msg : ProxyMessageBuffer) (cmd : ℤ) where
  -- The one call of a child.
  abbrev pub call_of : {body : Action SyscallStatus} → Body msg cmd body → Call
  call_of (fetches special id addr size) = sys_quotactl cmd special id (some (replicate size 0))
  call_of (submits special content id) = sys_quotactl cmd special id content
  call_of (passes special content id) = sys_quotactl cmd special id content
  call_of (fetches_next special id idmap addr) =
      sys_quotactl cmd special id (some (replicate size_of_nextdqblk 0))

  -- The call has succeeded with this reply: the status, and the history from there on.
  abbrev pub After :
      {body : Action SyscallStatus}
      → Body msg cmd body
      → Reply
      → History
      → SyscallStatus
      → History
      → Type 0
  After (fetches special id addr size) r h s h' =
      (s ≡ done (pos 0))
      × (fd : ℤ) × (msg.mem_fd ≡ some fd)
      × (length (filled size r) ≡ size)
      × (h' ≡ pwrite fd (filled size r) addr ∷ h)
  After (submits special content id) r h s h' = (s ≡ done (pos 0)) × (h' ≡ h)
  After (passes special content id) r h s h' = (s ≡ done r.res) × (h' ≡ h)
  After (fetches_next special id idmap addr) r h s h' =
      (s ≡ done (pos 0))
      × (fd : ℤ) × (content : Bytes) × (msg.mem_fd ≡ some fd)
      × (translate_next idmap (filled size_of_nextdqblk r) ≡ ok content)
      × (length content ≡ size_of_nextdqblk)
      × (h' ≡ pwrite fd content addr ∷ h)

  abbrev pub Makes :
      {body : Action SyscallStatus}
      → Body msg cmd body
      → Kernel
      → History
      → SyscallStatus
      → History
      → Type 0
  Makes b k h s h' =
      let r = k.reply h (call_of b) in
      ((eq_ℤ r.res minus_one ≡ true) × (s ≡ failed r.errno) × (h' ≡ call_of b ∷ h))
      ⊎ ((eq_ℤ r.res minus_one ≡ false) × After b r (call_of b ∷ h) s h')

  then_done :
      (addr : ℕ) (content : Bytes) (k : Kernel) (h h' : History) (s : SyscallStatus)
      → (mem_write_struct msg addr content >> pure (done (pos 0))) k h ≡ (ok s, h')
      → (s ≡ done (pos 0)) × (fd : ℤ) × (msg.mem_fd ≡ some fd) × (h' ≡ pwrite fd content addr ∷ h)
  then_done addr content k h h' s e =
      let (u, h1, e1, f1) = bind_ok (mem_write_struct msg addr content) _ k h e in
      let (fd, p, q) = writes msg addr content k h h1 e1 in
      (ground (arith, f1), fd, p, ground (arith, f1, q))

  tried :
      {body : Action SyscallStatus} (b : Body msg cmd body) (next : Reply → Action SyscallStatus)
      (k : Kernel) (h h' : History) (s : SyscallStatus)
      → ((r : Reply) → next r k (call_of b ∷ h) ≡ (ok s, h') → After b r (call_of b ∷ h) s h')
      → sc_libc_try (call_of b) next k h ≡ (ok s, h')
      → Makes b k h s h'
  tried b next k h h' s after e =
      let r = k.reply h (call_of b) in decided (eq_ℤ r.res minus_one) refl e
    where
      decided :
          (t : Bool)
          → eq_ℤ (k.reply h (call_of b)).res minus_one ≡ t
          → (if t
              then (ok (failed (k.reply h (call_of b)).errno), call_of b ∷ h)
              else next (k.reply h (call_of b)) k (call_of b ∷ h))
            ≡ (ok s, h')
          → Makes b k h s h'
      decided true q f = inl (q, ground (arith, f), ground (arith, f))
      decided false q f = inr (q, after (k.reply h (call_of b)) f)

  then_translated :
      (special : Option Bytes) (id : ℤ) (idmap : Option IdMap) (addr : ℕ) (r : Reply) (k : Kernel)
      (h h' : History) (s : SyscallStatus)
      → (lift (translate_next idmap (filled size_of_nextdqblk r)) >>= λ content.
            mem_write_struct msg addr content >> pure (done (pos 0)))
          k h
        ≡ (ok s, h')
      → After (fetches_next special id idmap addr) r h s h'
  then_translated special id idmap addr r k h h' s e =
      let (content, h1, e1, f1) =
        bind_ok (lift (translate_next idmap (filled size_of_nextdqblk r))) _ k h e in
      let (p, fd, q, t) = then_done addr content k h1 h' s f1 in
      (
        p,
        fd,
        content,
        q,
        ap (λ x. x.0) e1,
        length-translate_next idmap (filled size_of_nextdqblk r) content
            (length-filled size_of_nextdqblk r) (ap (λ x. x.0) e1),
        ground (arith, e1, t),
      )

  body-Makes :
      {body : Action SyscallStatus} (b : Body msg cmd body) (k : Kernel) (h h' : History)
      (s : SyscallStatus)
      → body k h ≡ (ok s, h')
      → Makes b k h s h'
  unfolding fetch submit fetch_next
  body-Makes (fetches special id addr size) k h h' s e =
      tried (fetches special id addr size)
        (λ r. mem_write_struct msg addr (filled size r) >> pure (done (pos 0))) k h h' s
        (λ r f.
          let (p, fd, q, t) = then_done addr (filled size r) k _ h' s f in
          (p, fd, q, length-filled size r, t))
        e
  body-Makes (submits special content id) k h h' s e =
      tried (submits special content id) (λ r. pure (done (pos 0))) k h h' s
        (λ r f. (ground (arith, f), ground (arith, f))) e
  body-Makes (passes special content id) k h h' s e =
      tried (passes special content id) (λ r. pure (done r.res)) k h h' s
        (λ r f. (ground (arith, f), ground (arith, f))) e
  body-Makes (fetches_next special id idmap addr) k h h' s e =
      tried (fetches_next special id idmap addr)
        (λ r. lift (translate_next idmap (filled size_of_nextdqblk r)) >>= λ content.
          mem_write_struct msg addr content >> pure (done (pos 0)))
        k h h' s (λ r f. then_translated special id idmap addr r k _ h' s f) e

  -- A child of `quotactl` that ends with a status has made the calls of the takeover of its capabilities,
  -- ids included, and then the one call with the command. Where that fails, its error is the status and
  -- nothing else is called. Where it succeeds, a command that fetches something writes the whole buffer to
  -- the caller's memory, once, as the kernel filled it, which for the next quota are 80 bytes, after
  -- `translate_next`; the other commands call nothing else.
  pub child-Makes :
      {body : Action SyscallStatus} (b : Body msg cmd body) (caps : UserCaps) (k : Kernel)
      (h h' : History) (s : SyscallStatus)
      → caps.apply_uids ≡ true
      → (become caps >> body) k h ≡ (ok s, h')
      → Makes b k (taken_over k caps h) s h'
  child-Makes b caps k h h' s t e =
      let (u, h1, e1, f1) = bind_ok (become caps) _ k h e in
      body-Makes b k (taken_over k caps h) h' s (rw (← become_makes_takeover k h h1 caps t e1) f1)
