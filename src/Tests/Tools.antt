-- ===== src/Tests/Tools.antt =====
-- Control messages, futures of a closure, and a process's status.
use pve_lxc_syscalld.Base.{
  suc, panic, All, refl, arith, ℕ, zero, pos, Bytes, codes, [], ◌∷◌, ◌++◌, List, replicate, ok,
  some, ◌≡◌,
}
use pve_lxc_syscalld.Kernel.{Kernel}
use pve_lxc_syscalld.Tools.PollFn.{poll_fn, polls, polls-ReadyAfter}
use pve_lxc_syscalld.Io.Pipe.{Poll, ready, pending}
use pve_lxc_syscalld.Process.PidFd.{get_status}
use pve_lxc_syscalld.Process.Status.{ProcStatus, Uids}
use pve_lxc_syscalld.Tests.Replies.{plain, caller}
use pve_lxc_syscalld.Io.Cmsg.{ControlMessage, iter}
use pve_lxc_syscalld.Io.Cmsg.Messages.{Fits, Yields, all_placed, iter-Yields}

-- SCM_RIGHTS with two descriptors, and a message with three bytes
abbrev messages : List ControlMessage
messages =
    record { cmsg_level = pos 1; cmsg_type = pos 1; payload = 10 ∷ 0 ∷ 0 ∷ 0 ∷ 11 ∷ 0 ∷ 0 ∷ 0 ∷ [] }
    ∷ record { cmsg_level = pos 1; cmsg_type = pos 2; payload = 1 ∷ 2 ∷ 3 ∷ [] }
    ∷ []

messages-Fits : All Fits messages
messages-Fits = (
  record { level_fits = ground arith; type_fits = ground arith; payload_fits = omega arith },
  (record { level_fits = ground arith; type_fits = ground arith; payload_fits = omega arith }, tt),
)

iter-Yields_example : Yields (iter (all_placed messages)) messages
iter-Yields_example = iter-Yields messages messages-Fits

-- A closure that counts down.
abbrev countdown : ℕ → Poll ℕ × ℕ
countdown zero = (ready 7, zero)
countdown (suc n) = (pending, n)

polls-ReadyAfter_example :
    polls countdown 4 (poll_fn countdown 2)
    ≡ replicate 2 (ok pending) ++ ok (ready 7) ∷ replicate 1 panic
polls-ReadyAfter_example = polls-ReadyAfter countdown 2 1 2 7 (refl, (refl, refl))

abbrev status_text : Bytes
status_text =
    codes "Uid:"
    ++ 9 ∷ codes "1"
    ++ 9 ∷ codes "2"
    ++ 9 ∷ codes "3"
    ++ 9 ∷ codes "4"
    ++ 10 ∷ codes "CapEff:"
    ++ 9 ∷ codes "ff"
    ++ 10 ∷ codes "Umask:"
    ++ 9 ∷ codes "0022"
    ++ 10 ∷ []

abbrev stated : Kernel
stated = record { reply = λ h c. plain 5 status_text; rounds = 1; flags_from_bits = λ n. some n }

abbrev read_status : ProcStatus
read_status = record {
  uids = record {
    ruid = 1;
    euid = 2;
    suid = 3;
    fsuid = 4;
    rgid = 0;
    egid = 0;
    sgid = 0;
    fsgid = 0;
  };
  capabilities = record { inheritable = 0; permitted = 0; effective = 255 };
  umask = 18;
}

status_read : get_status caller stated [] ≡ (ok read_status, (get_status caller stated []).1)
unfolding get_status pve_lxc_syscalld.Process.Status.status_lines
    pve_lxc_syscalld.Process.Text.split_lines pve_lxc_syscalld.Process.Text.text_line
    pve_lxc_syscalld.Process.Status.status_line pve_lxc_syscalld.Process.Text.split_ascii_whitespace
    pve_lxc_syscalld.Process.Text.from_str_radix
status_read = refl
