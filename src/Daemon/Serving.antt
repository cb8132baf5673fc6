-- ===== src/Daemon/Serving.antt =====
-- The start of the daemon and its clients, in `do_main` of src/main.rs.
use pve_lxc_syscalld.Base.{
  ap, pos, ℕ, zero, suc, ◌+◌, ◌<◌, ℤ, minus_one, eq_ℤ, is_negative, Bytes, codes, List, [], ◌∷◌,
  length, Bool, true, false, if◌then◌else◌, Option, some, ok, err, os, ◌≡◌, ◌⊎◌, refl, ◌∙◌, arith,
}
use pve_lxc_syscalld.Libc.{enoent}
use pve_lxc_syscalld.Kernel.{
  readable, Kernel, History, c_result, remove_file, socket, bind, listen, accept4, register_socket,
  spawn, sd_notify,
}
use pve_lxc_syscalld.Io.Waiting.{attempts, BlocksFor, wrap_loop_returns}
use pve_lxc_syscalld.Io.SeqPacket.{bind_listener, accept, seq_packet_socket, new}
use pve_lxc_syscalld.Daemon.{remove_previous, notify_systemd, accept_loop, do_main, start}
use pve_lxc_syscalld.Daemon.Arguments.Accepted.{Starts, parse_args_iff}

-- A client: for how many attempts nobody connected, and its descriptor.
abbrev pub Clients : Type 0
Clients = List (ℕ × ℤ)

abbrev pub accepted : ℕ → History → History
accepted n h = accept4 ∷ attempts readable n accept4 h

-- The calls by which the clients are accepted and their tasks started, one client after the other.
abbrev pub served : Clients → History → History
served [] h = h
served ((n, fd) ∷ cs) h = served cs (spawn fd ∷ register_socket ∷ accepted n h)

-- The clients connect in this order, each within the rounds of a wait.
abbrev pub Connects : Kernel → Clients → History → Type 0
Connects k [] h = Unit
Connects k ((n, fd) ∷ cs) h =
    (n < k.rounds)
    × BlocksFor k readable accept4 h n
    × ((k.reply (attempts readable n accept4 h) accept4).res ≡ fd)
    × (eq_ℤ fd minus_one ≡ false)
    × (eq_ℤ (k.reply (accepted n h) register_socket).res minus_one ≡ false)
    × Connects k cs (spawn fd ∷ register_socket ∷ accepted n h)

-- The wait for a client ends with its descriptor.
accept_next :
    (k : Kernel) (n : ℕ) (fd : ℤ) (h : History)
    → n < k.rounds
    → BlocksFor k readable accept4 h n
    → (k.reply (attempts readable n accept4 h) accept4).res ≡ fd
    → eq_ℤ fd minus_one ≡ false
    → eq_ℤ (k.reply (accepted n h) register_socket).res minus_one ≡ false
    → accept k h ≡ (ok fd, register_socket ∷ accepted n h)
unfolding accept new c_result
accept_next k n fd h lt b e f g =
    rw (wrap_loop_returns n k.rounds readable accept4 k h lt b) (ground arith)

loop_serves :
    (k : Kernel) (clients : Clients) (total m : ℕ) (h : History)
    → total ≡ length clients + m
    → Connects k clients h
    → accept_loop total k h ≡ accept_loop m k (served clients h)
unfolding accept_loop
loop_serves k [] total m h e c = rw e (ap (λ j. accept_loop j k h) (omega arith))
loop_serves k ((n, fd) ∷ cs) zero m h e c = absurd (omega arith)
loop_serves k ((n, fd) ∷ cs) (suc total) m h e (lt, b, r, f, g, c) =
    rw (accept_next k n fd h lt b r f g) (loop_serves k cs total m _ (omega arith) c)

-- An error of `accept4` ends the loop, whichever attempt for a client it is.
accept_loop_ends :
    (k : Kernel) (m n : ℕ) (h : History)
    → n < k.rounds
    → BlocksFor k readable accept4 h n
    → eq_ℤ (k.reply (attempts readable n accept4 h) accept4).res minus_one ≡ true
    → accept_loop (suc m) k h
      ≡ (err (os (k.reply (attempts readable n accept4 h) accept4).errno), accepted n h)
unfolding accept_loop accept c_result
accept_loop_ends k m n h lt b bad =
    rw (wrap_loop_returns n k.rounds readable accept4 k h lt b) (ground arith)

-- The kernel lets the socket be set up on the address. A previous socket is removed, or there is none.
pub record SetsUp (k : Kernel) (path address : Bytes) (notify : Bool) (h : History) : Type 0 where
  pub removed :
      (eq_ℤ (k.reply h (remove_file path)).res minus_one ≡ false)
      ⊎ (eq_ℤ (k.reply h (remove_file path)).errno enoent ≡ true)
  pub made : eq_ℤ (k.reply (remove_file path ∷ h) socket).res minus_one ≡ false
  pub bound : eq_ℤ (k.reply (socket ∷ remove_file path ∷ h) (bind address)).res minus_one ≡ false
  pub heard :
      eq_ℤ (k.reply (bind address ∷ socket ∷ remove_file path ∷ h) (listen 16)).res minus_one
      ≡ false
  pub registered :
      eq_ℤ
        (k.reply (listen 16 ∷ bind address ∷ socket ∷ remove_file path ∷ h) register_socket).res
        minus_one
      ≡ false
  pub notified :
      (notify ≡ false)
      ⊎ (is_negative
            (k.reply
              (register_socket ∷ listen 16 ∷ bind address ∷ socket ∷ remove_file path ∷ h)
              (sd_notify (codes "READY=1\n"))).res
          ≡ false)

abbrev pub set_up : Bytes → Bytes → Bool → History → History
set_up path address notify h =
    let ready = register_socket ∷ listen 16 ∷ bind address ∷ socket ∷ remove_file path ∷ h in
    if notify then sd_notify (codes "READY=1\n") ∷ ready else ready

-- Where nothing fails, the daemon removes the previous socket, listens on the path's address, tells
-- systemd only then that it is ready, and if it was asked to, and serves the clients that connect.
pub do_main_serves :
    (unix_addr : Bytes → Option Bytes) (k : Kernel) (path address : Bytes) (notify : Bool)
    (clients : Clients) (m : ℕ) (h : History)
    → unix_addr path ≡ some address
    → SetsUp k path address notify h
    → k.rounds ≡ length clients + m
    → Connects k clients (set_up path address notify h)
    → do_main unix_addr notify path k h
      ≡ accept_loop m k (served clients (set_up path address notify h))
unfolding do_main remove_previous bind_listener seq_packet_socket notify_systemd c_result
do_main_serves unix_addr k path address true clients m h e s r c =
    ground (arith, loop_serves k clients k.rounds m (set_up path address true h) r c)
do_main_serves unix_addr k path address false clients m h e s r c =
    ground (arith, loop_serves k clients k.rounds m (set_up path address false h) r c)

-- The daemon, started on a path, ends with status 1 at the first error of `accept4` other than EAGAIN, even
-- one of a client that is gone again, and even after attempts that would block. It then serves no client
-- any more, after any number of them.
pub start_ends :
    (unix_addr : Bytes → Option Bytes) (k : Kernel) (program : Bytes) (args : List Bytes)
    (path address : Bytes) (notify : Bool) (clients : Clients) (m n : ℕ) (h : History)
    → Starts args notify path
    → unix_addr path ≡ some address
    → SetsUp k path address notify h
    → k.rounds ≡ length clients + suc m
    → Connects k clients (set_up path address notify h)
    → n < k.rounds
    → BlocksFor k readable accept4 (served clients (set_up path address notify h)) n
    → eq_ℤ
        (k.reply
          (attempts readable n accept4 (served clients (set_up path address notify h)))
          accept4).res
        minus_one
      ≡ true
    → start unix_addr (program ∷ args) k h
      ≡ (ok (pos 1), accepted n (served clients (set_up path address notify h)))
unfolding start
start_ends unix_addr k program args path address notify clients m n h st e s r c lt b bad =
    let began = (parse_args_iff program args notify path).1 st in
    let came =
      do_main_serves unix_addr k path address notify clients (suc m) h e s r c
      ∙ accept_loop_ends k m n (served clients (set_up path address notify h)) lt b bad in
    rw began (rw came refl)
