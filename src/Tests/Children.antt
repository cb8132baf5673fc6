-- ===== src/Tests/Children.antt =====
-- Children and their outcomes.
use pve_lxc_syscalld.Base.{
  minus_one, err, panic, os, io_kind, unexpected_eof, some, ◌≡◌, refl, ok, [], ◌∷◌, pos, negsuc,
  arith,
}
use pve_lxc_syscalld.Kernel.{
  Call, Reply, Kernel, History, lift, read_pipe, register_pipe, exit, kill,
}
use pve_lxc_syscalld.Fork.{forking_syscall, child_main}
use pve_lxc_syscalld.Fork.EndToEnd.{started, forked, Forks, Blocks}
use pve_lxc_syscalld.Fork.Failures.{forking_syscall_dies, forking_syscall_kills}
use pve_lxc_syscalld.Kernel.{waitpid}
use pve_lxc_syscalld.Kernel.Laws.{push_all}
use pve_lxc_syscalld.Capability.{Capabilities, capset_data}
use pve_lxc_syscalld.Process.UserCaps.{apply}
use pve_lxc_syscalld.Takeover.{takeover, handles_of}
use pve_lxc_syscalld.Takeover.Applied.{apply_makes_takeover}
use pve_lxc_syscalld.Syscall.{failed}
use pve_lxc_syscalld.Fork.{Packet, wait_loop}
use pve_lxc_syscalld.Fork.Transport.{IsPacket, received, reported, received-eq-reported}
use pve_lxc_syscalld.Fork.Waiting.{wait_loop_returns}
use pve_lxc_syscalld.Tests.Replies.{plain, willing, own, caller_caps}

applied : apply caller_caps own willing [] ≡ (ok tt, (apply caller_caps own willing []).1)
unfolding apply pve_lxc_syscalld.NsFd.openat pve_lxc_syscalld.AppArmor.set_label
    pve_lxc_syscalld.Capability.SecureBits.get_current pve_lxc_syscalld.Capability.SecureBits.apply
    pve_lxc_syscalld.Capability.capset
applied = refl

apply_makes_takeover_example :
    (apply caller_caps own willing []).1
    ≡ push_all (takeover caller_caps own (handles_of willing caller_caps own [])) []
apply_makes_takeover_example =
    apply_makes_takeover willing [] caller_caps own refl (apply caller_caps own willing []).1
      applied

received-eq-reported_example : received (ok (failed (pos 17))) ≡ reported (ok (failed (pos 17)))
received-eq-reported_example = received-eq-reported (ok (failed (pos 17))) (ground arith)

abbrev eexist : Packet
eexist = record { val = negsuc 0; error = pos 17; failure = pos 0 }

eexist-IsPacket : IsPacket eexist
eexist-IsPacket = record {
  val_fits = omega arith;
  error_fits = omega arith;
  failure_fits = omega arith;
}

wait_loop_returns_example : wait_loop 2 (pos 5) willing [] ≡ (ok (pos 0), waitpid (pos 5) ∷ [])
wait_loop_returns_example = wait_loop_returns 0 2 (pos 5) willing [] (omega arith) (refl, refl)

-- A child whose pipe ends early.
abbrev cut_short : Call → Reply
cut_short (read_pipe len) = plain 3 (1 ∷ 2 ∷ 3 ∷ [])
cut_short c = plain 5 []

abbrev dying : Kernel
dying = record { reply = λ h c. cut_short c; rounds = 1; flags_from_bits = λ n. some n }

abbrev at_end : History
at_end = read_pipe 16 ∷ register_pipe ∷ exit minus_one ∷ started 5 []

dying-Forks : Forks dying [] (pos 5)
dying-Forks = record { piped = refl; forks = refl; is_pid = refl }

dying-Blocks : Blocks dying [] 5
dying-Blocks = record {
  flags_read = refl;
  flags_fit = omega arith;
  flags_known = refl;
  blocks = refl;
}

forking_syscall_dies_example :
    forking_syscall (lift panic) dying [] ≡ (err (io_kind unexpected_eof), waitpid (pos 5) ∷ at_end)
forking_syscall_dies_example =
    forking_syscall_dies (lift panic) dying [] (pos 5) (started 5 []) 5 0 dying-Forks dying-Blocks
      refl refl refl (omega arith) (omega arith) (refl, refl)

-- No more descriptors for the runtime.
abbrev unregistered : Call → Reply
unregistered register_pipe = record {
  res = minus_one;
  errno = pos 24;
  out = [];
  control = [];
  status = pos 0;
}
unregistered c = plain 5 []

abbrev exhausted : Kernel
exhausted = record { reply = λ h c. unregistered c; rounds = 1; flags_from_bits = λ n. some n }

abbrev child_end : History
child_end = (child_main (lift panic) exhausted (forked [])).1

child_ended : child_main (lift panic) exhausted (forked []) ≡ (ok tt, child_end)
unfolding child_main pve_lxc_syscalld.Fork.child_body pve_lxc_syscalld.Tools.set_fd_nonblocking
child_ended = refl

forking_syscall_kills_example :
    forking_syscall (lift panic) exhausted []
    ≡ (err (os (pos 24)), kill (pos 5) 9 ∷ register_pipe ∷ child_end)
forking_syscall_kills_example =
    forking_syscall_kills (lift panic) exhausted [] (pos 5) child_end
      (record { piped = refl; forks = refl; is_pid = refl }) child_ended refl
