-- ===== src/Ledger/Owned.antt =====
-- Blocks that own descriptors, and what `recvmsg_vectored` of src/io/seq_packet.rs brings.
use pve_lxc_syscalld.Base.{
  sym, ℕ, ◌≡◌, ap, ◌∙◌, ℤ, Bytes, List, [], ◌∷◌, take, Result, ok, err, panic, hang, Error,
}
use pve_lxc_syscalld.Kernel.{Kernel, History, Action, recvmsg, left_with, owning, then_run}
use pve_lxc_syscalld.Kernel.Laws.{close_all_drops}
use pve_lxc_syscalld.Io.{wrap_read}
use pve_lxc_syscalld.Io.Cmsg.{capacity}
use pve_lxc_syscalld.Io.SeqPacket.{recvmsg_vectored}
use pve_lxc_syscalld.LxcSeccomp.{fds_wrapped}
use pve_lxc_syscalld.Ledger.{rights_of, Same, Balanced}
use pve_lxc_syscalld.Ledger.Balance.{Balanced-Same, Balanced-dropped, Got, wait_Got}

-- What holds of a sequence, from what holds of its first part.
pub then_Post {ℓ κ} :
    {A : Type ℓ} {B : Type κ} (P : Result A × History → Type 0) (Q : Result B × History → Type 0)
    (k : Kernel) (x : Result A × History) (f : A → Action B)
    → P x
    → ((a : A) (h : History) → P (ok a, h) → Q (f a k h))
    → ((e : Error) (h : History) → P (err e, h) → Q (err e, h))
    → ((h : History) → P (panic, h) → Q (panic, h))
    → ((h : History) → P (hang, h) → Q (hang, h))
    → Q (then_run x f k)
then_Post P Q k (ok a, h) f p good bad dead stuck = good a h p
then_Post P Q k (err e, h) f p good bad dead stuck = bad e h p
then_Post P Q k (panic, h) f p good bad dead stuck = dead h p
then_Post P Q k (hang, h) f p good bad dead stuck = stuck h p

module _ (k : Kernel) where
  -- A block that is left by an error or a panic has dropped what it owned.
  abbrev pub Kept {ℓ} : {A : Type ℓ} → List ℤ → Result A × History → Type 0
  Kept fds (ok a, h) = Balanced k h fds
  Kept fds (err e, h) = Balanced k h []
  Kept fds (panic, h) = Balanced k h []
  Kept fds (hang, h) = Balanced k h fds

  pub owning-Kept {ℓ} :
      {A : Type ℓ} (fds : List ℤ) (m : Action A) (h : History)
      → Same k h (m k h).1
      → Balanced k h fds
      → Kept fds (owning fds m k h)
  owning-Kept {A} fds m h p b = left (m k h) (Balanced-Same k h (m k h).1 fds p b)
    where
      left : (x : Result A × History) → Balanced k x.1 fds → Kept fds (left_with fds x k)
      left (ok a, h1) c = c
      left (err e, h1) c = rw (close_all_drops fds k h1) (Balanced-dropped k fds h1 c)
      left (panic, h1) c = rw (close_all_drops fds k h1) (Balanced-dropped k fds h1 c)
      left (hang, h1) c = c

  -- It is how this block came out, and what it has left open.
  abbrev pub Ran : {A : Type 0} → List ℤ → Action A → History → Result A × History → Type 0
  Ran fds m h x = (x ≡ owning fds m k h) × Kept fds x

  -- The data and the control messages are those of the last call.
  abbrev pub Arrived : ℕ → Result (Bytes × Bytes) × History → Type 0
  Arrived room (ok (received, control), h) =
      (h1 : History) × (h ≡ recvmsg ∷ h1)
      × (received ≡ take room (k.reply h1 recvmsg).out)
      × (rights_of (k.reply h1 recvmsg) ≡ fds_wrapped control)
      × Balanced k h (rights_of (k.reply h1 recvmsg))
  Arrived room (err e, h) = Balanced k h []
  Arrived room (panic, h) = Balanced k h []
  Arrived room (hang, h) = Balanced k h []

  pub recvmsg_vectored-Arrived :
      (room : ℕ) (h : History)
      → Balanced k h []
      → Arrived room (recvmsg_vectored room (capacity 8) k h)
  unfolding recvmsg_vectored wrap_read
  recvmsg_vectored-Arrived room h b =
      then_Post (Got k) (Arrived room) k _ _ (wait_Got k k.rounds h b)
        (λ r h2 (h1, q, e, f, c).
          (h1, q, ap (λ t. take room t.out) e, ap rights_of (sym e) ∙ f, rw e at c))
        (λ e h2 c. c) (λ h2 c. c) (λ h2 c. c)
