-- ===== src/Tests/Descriptors.antt =====
-- A client's messages, their descriptors and their answers, from the first client on.
use pve_lxc_syscalld.Base.{
  pos, negsuc, arith, All, IsByte, ◌≡◌, ◌⊎◌, [], ◌∷◌, replicate, some, panic, Bool, true, false, ℤ,
  refl, if◌then◌else◌, is_hang,
}
use pve_lxc_syscalld.Kernel.{Call, Reply, Kernel, History, seccomp_sizes, recvmsg, sendmsg, waitpid}
use pve_lxc_syscalld.Io.{would_block}
use pve_lxc_syscalld.LxcSeccomp.{new}
use pve_lxc_syscalld.Frame.{IsFair, is_passed_over}
use pve_lxc_syscalld.Client.Ending.{Takes, main_ends}
use pve_lxc_syscalld.Client.{main, first_main}
use pve_lxc_syscalld.Client.Due.{OnlyAnswers}
use pve_lxc_syscalld.Client.First.{Suits, told, first_main_decides}
use pve_lxc_syscalld.Client.Replies.{ReceivesBytes, first_main-OnlyAnswers}
use pve_lxc_syscalld.Ledger.Connection.{Settled, main-Settled}
use pve_lxc_syscalld.Tests.Replies.{
  linux_numbers, kernel_sizes, packet, plain, reply_to, in_proc, container,
}

main-Settled_example :
    Settled kernel_sizes 64 container
      (main linux_numbers kernel_sizes (replicate 64 0) container [])
main-Settled_example = main-Settled linux_numbers kernel_sizes (replicate 64 0) container

-- The kernel tells the sizes, too.
abbrev told_first : Call → Reply
told_first seccomp_sizes = plain 0 (80 ∷ 0 ∷ 24 ∷ 0 ∷ 64 ∷ 0 ∷ [])
told_first c = reply_to c

abbrev telling : Kernel
telling = record { reply = λ h c. told_first c; rounds = 2; flags_from_bits = λ n. some n }

packet_bytes : All IsByte packet
packet_bytes = ground arith

telling_bytes : ReceivesBytes telling
telling_bytes h = packet_bytes

first_main-OnlyAnswers_example :
    OnlyAnswers 200 telling (first_main linux_numbers (replicate 64 0) telling []).1
first_main-OnlyAnswers_example =
    first_main-OnlyAnswers linux_numbers (replicate 64 0) telling telling_bytes

abbrev sizes_reply : Reply
sizes_reply = told_first seccomp_sizes

first_main_decides_example :
    (Suits sizes_reply
      × (first_main linux_numbers (replicate 64 0) telling []
          ≡ main linux_numbers (told sizes_reply) (replicate 64 0) telling (seccomp_sizes ∷ [])))
    ⊎ ((¬ Suits sizes_reply)
        × (first_main linux_numbers (replicate 64 0) telling [] ≡ (panic, seccomp_sizes ∷ [])))
first_main_decides_example = first_main_decides linux_numbers (replicate 64 0) telling []

-- A client that hangs up after its answer; the child that is waited for has ended.
abbrev was_answered : History → Bool
was_answered [] = false
was_answered (sendmsg content ∷ h) = true
was_answered (c ∷ h) = was_answered h

abbrev prompt_reply : Call → History → Reply
prompt_reply (waitpid pid) h = record (plain 0 []) { res = pid }
prompt_reply recvmsg h = if was_answered h then plain 0 [] else reply_to recvmsg
prompt_reply c h = in_proc c h

abbrev prompt : Kernel
prompt = record { reply = λ h c. prompt_reply c h; rounds = 2; flags_from_bits = λ n. some n }

never_blocked : (t : Bool) → would_block (if t then plain 0 [] else reply_to recvmsg) ≡ false
never_blocked true = refl
never_blocked false = refl

own_child : (pid : ℤ) → is_passed_over pid (record (plain 0 []) { res = pid }) ≡ false
own_child (pos n) = ground arith
own_child (negsuc n) = ground arith

prompt-IsFair : IsFair prompt
prompt-IsFair = record {
  receives = λ h. (0, omega arith, never_blocked (was_answered h));
  sends = λ content h. (0, omega arith, refl);
  children = λ pid h. (0, omega arith, own_child pid);
}

main_ends_example :
    (is_hang (main linux_numbers kernel_sizes (replicate 64 0) prompt []).0 ≡ false)
    ⊎ Takes linux_numbers prompt 2 (new kernel_sizes (replicate 64 0)) []
main_ends_example = main_ends linux_numbers kernel_sizes (replicate 64 0) prompt [] prompt-IsFair
