-- ===== src/Ledger/Connection.antt =====
-- The descriptors of a client's messages, in src/client.rs.
use pve_lxc_syscalld.Base.{
  ℕ, zero, suc, ◌≡◌, refl, sym, ℤ, Bytes, List, [], ◌∷◌, length, Bool, true, false, Result, ok, err,
  panic, hang, ◌⊎◌, inl, inr, if◌then◌else◌,
}
use pve_lxc_syscalld.Kernel.{Kernel, History, shutdown, owning, then_run, caught, pure, ◌>>=◌}
use pve_lxc_syscalld.Kernel.Laws.{owning_ok}
use pve_lxc_syscalld.Seccomp.{SeccompNotifSizes}
use pve_lxc_syscalld.Syscall.{SyscallStatus, done, failed}
use pve_lxc_syscalld.SysMknod.{DevNumbers}
use pve_lxc_syscalld.LxcSeccomp.{ProxyMessageBuffer, held, recv}
use pve_lxc_syscalld.LxcSeccomp
use pve_lxc_syscalld.Client.{set_response, handle_syscall, serve, main_do, wrap_error, main}
use pve_lxc_syscalld.Client.Steps.{shut_down}
use pve_lxc_syscalld.Ledger.{Balanced}
use pve_lxc_syscalld.Ledger.Owned.{then_Post, Ran, owning-Kept}
use pve_lxc_syscalld.Client.Shape.{IsShaped, set_response-IsShaped, new-IsShaped}
use pve_lxc_syscalld.Ledger.Receiving.{IsEmpty, IsRefused, Lost, Taken, recv-Taken}
use pve_lxc_syscalld.Ledger.Answering.{handle_syscall-Same}
use pve_lxc_syscalld.Client.Handled.{handle_syscall_sets}

held-set_response :
    (msg : ProxyMessageBuffer) (s : SyscallStatus) → held (set_response msg s) ≡ held msg
unfolding set_response
held-set_response msg (done v) = refl
held-set_response msg (failed e) = refl

module _ (d : DevNumbers) (sizes : SeccompNotifSizes) (room : ℕ) (k : Kernel) where
  -- How the loop over the messages leaves their descriptors.
  abbrev Served : Result (Unit {0}) × History → Type 0
  Served (ok u, h) = Lost sizes room IsEmpty k h
  Served (err e, h) = Balanced k h [] ⊎ Lost sizes room IsRefused k h
  Served (panic, h) = Balanced k h []
  Served (hang, h) = (fds : List ℤ) × Balanced k h fds

  answered_Served :
      (n : ℕ) (msg : ProxyMessageBuffer) (h : History)
      → ((msg' : ProxyMessageBuffer) (h' : History)
          → IsShaped sizes room msg'
          → Balanced k h' (held msg')
          → Served (serve d n msg' k h'))
      → IsShaped sizes room msg
      → Balanced k h (held msg)
      → Served (then_run (owning (held msg) (handle_syscall d msg) k h) (λ msg'. serve d n msg') k)
  answered_Served n msg h next s w =
      let m = handle_syscall d msg in
      let own = owning-Kept k (held msg) m h (handle_syscall-Same d msg k h) w in
      then_Post (Ran k (held msg) m h) Served k _ _ (refl, own)
        (λ msg' h1 (e, w1).
          let (st, q) =
            handle_syscall_sets d msg msg' k h h1 (owning_ok (held msg) m k h (sym e)) in
          next msg' h1 (rw q (set_response-IsShaped sizes room msg st s))
            (rw (q, held-set_response) w1))
        (λ e h1 (_, w1). inl w1) (λ h1 (_, w1). w1) (λ h1 (_, w1). (held msg, w1))

  turn_Served :
      (n : ℕ) (more : Bool) (msg : ProxyMessageBuffer) (h : History)
      → ((msg' : ProxyMessageBuffer) (h' : History)
          → IsShaped sizes room msg'
          → Balanced k h' (held msg')
          → Served (serve d n msg' k h'))
      → Taken sizes room k (ok (more, msg), h)
      → Served (
          (if more
              then (owning (held msg) (handle_syscall d msg) >>= λ msg'. serve d n msg')
              else pure tt)
            k h)
  turn_Served n true msg h next t = answered_Served n msg h next (t.0) (t.1)
  turn_Served n false msg h next t = t

  serve-Served :
      (n : ℕ) (msg : ProxyMessageBuffer) (h : History)
      → IsShaped sizes room msg
      → Balanced k h (held msg)
      → Served (serve d n msg k h)
  unfolding serve
  serve-Served zero msg h s w = (held msg, w)
  serve-Served (suc n) msg h s w =
      then_Post (Taken sizes room k) Served k (recv msg k h) _ (recv-Taken sizes room k msg h s w)
        (λ x h1 t. turn_Served n x.0 x.1 h1 (serve-Served n) t) (λ e h1 t. t) (λ h1 t. t)
        (λ h1 t. t)

-- How the task of a client leaves the descriptors of its messages.
abbrev pub Settled : SeccompNotifSizes → ℕ → Kernel → Result (Unit {0}) × History → Type 0
Settled sizes room k (ok u, h) =
    Lost sizes room IsEmpty k h
    ⊎ ((h1 : History) × (h ≡ shutdown ∷ h1) × (Balanced k h1 [] ⊎ Lost sizes room IsRefused k h1))
Settled sizes room k (err e, h) = ⊥
Settled sizes room k (panic, h) = Balanced k h []
Settled sizes room k (hang, h) = (fds : List ℤ) × Balanced k h fds

held-new : (sizes : SeccompNotifSizes) (mem : Bytes) → held (LxcSeccomp.new sizes mem) ≡ []
unfolding LxcSeccomp.new
held-new sizes mem = refl

module _ (d : DevNumbers) (sizes : SeccompNotifSizes) (mem : Bytes) (k : Kernel) where
  main_do-Served : Served d sizes (length mem) k (main_do d sizes mem k [])
  unfolding main_do
  main_do-Served =
      serve-Served d sizes (length mem) k k.rounds (LxcSeccomp.new sizes mem) []
        (new-IsShaped sizes mem)
        (rw (held-new sizes mem) (record { balance = λ fd. refl; each_open = tt }))

  pub main-Settled : Settled sizes (length mem) k (main d sizes mem k [])
  unfolding main wrap_error
  main-Settled = ended (main_do d sizes mem k []) main_do-Served
    where
      ended :
          (x : Result (Unit {0}) × History)
          → Served d sizes (length mem) k x
          → Settled sizes (length mem) k (then_run (caught x) wrap_error k)
      ended (ok u, h) s = inl s
      ended (err e, h) s = rw (shut_down k h) (inr (h, refl, s))
      ended (panic, h) s = s
      ended (hang, h) s = s
