-- ===== src/Tests/Files.antt =====
-- Processes, the files that tell of them, and calls in their name.
use pve_lxc_syscalld.Base.{
  Result, List, bytes_eq, if◌then◌else◌, some, none, inl, ◌+◌, ◌<◌, ◌^◌, ◌≡◌, ◌≢◌, ◌↔◌, All, refl,
  arith, ℕ, ℤ, pos, Bytes, codes, [], ◌∷◌, ◌++◌, List, replicate, length, ok, Result, true, false,
}
use pve_lxc_syscalld.Kernel.{Kernel, pure, ◌>>◌, call, umask, read_file, mknodat, waitpid, Action}
use pve_lxc_syscalld.Process.PidFd.{PidFd, get_uid_gid_map}
use pve_lxc_syscalld.Process.PidFd.Maps.{opening, get_uid_gid_map_reads}
use pve_lxc_syscalld.Process.Status.MapFile.{Line, map_text, entries}
use pve_lxc_syscalld.Process.IdMap.RoundTrip.{IsEntry}
use pve_lxc_syscalld.Process.Text.{print_ℕ, from_str_radix, split_lines, is_utf8}
use pve_lxc_syscalld.Process.CGroups.{CGroups, empty, get, read_lines}
use pve_lxc_syscalld.Process.CGroups.Entries.{Entry, lines_of, get-read_lines}
use pve_lxc_syscalld.Syscall.{SyscallStatus, done}
use pve_lxc_syscalld.SysMknod.{mknodat_child}
use pve_lxc_syscalld.SysMknod
use pve_lxc_syscalld.SysMknod.AsCaller.{
  taken_over, status_for, mknodat_child_lem, AsCaller, mknodat-AsCaller,
}
use pve_lxc_syscalld.Fork.{Packet, forking_syscall, packet_of}
use pve_lxc_syscalld.Fork.EndToEnd.{Relays, started, read, forking_syscall-Relays}
use pve_lxc_syscalld.LxcSeccomp.{ProxyMessageBuffer, new, scatter}
use pve_lxc_syscalld.Tests.Replies.{
  container, plain, willing, caller, caller_caps, fresh, packet, linux_numbers,
}

-- "         0     100000      65536" and "     65536         7          1"
abbrev subids : List Line
subids =
    record {
      entry = record { ns = 0; host = 100000; range = 65536 };
      pad_ns = 9;
      pad_host = 4;
      pad_range = 5;
    }
    ∷ record {
      entry = record { ns = 65536; host = 7; range = 1 };
      pad_ns = 5;
      pad_host = 9;
      pad_range = 9;
    }
    ∷ []

subids-IsEntry : All IsEntry (entries subids)
subids-IsEntry = (
  record { ns_fits = omega arith; host_fits = omega arith; range_fits = omega arith },
  (record { ns_fits = omega arith; host_fits = omega arith; range_fits = omega arith }, tt),
)

abbrev mapped : Kernel
mapped = record {
  reply = λ h c. plain 5 (map_text subids);
  rounds = 1;
  flags_from_bits = λ n. some n;
}

get_uid_gid_map_reads_example :
    get_uid_gid_map caller (codes "uid_map") mapped []
    ≡ (ok (entries subids), read_file (pos 5) ∷ opening caller (codes "uid_map") ∷ [])
get_uid_gid_map_reads_example =
    get_uid_gid_map_reads caller (codes "uid_map") subids (pos 5) mapped [] subids-IsEntry refl refl
      refl refl

abbrev work : Action SyscallStatus
work = do call (umask 0); pure (done (pos 0))

abbrev success : Packet
success = record { val = pos 0; error = pos 0; failure = pos 0 }

Relays-success : Relays willing [] (pos 5) success (umask 0 ∷ started 5 []) 0 5
unfolding pve_lxc_syscalld.Fork.encode_packet pve_lxc_syscalld.Base.unwords
    pve_lxc_syscalld.Base.le_bytes
Relays-success = record {
  forks = record { piped = refl; forks = refl; is_pid = refl };
  blocks = record { flags_read = refl; flags_fit = omega arith; flags_known = refl; blocks = refl };
  written = refl;
  registered = refl;
  readable = refl;
  content = refl;
  in_time = omega arith;
  ends = (refl, refl);
  succeeds = refl;
}

forking_syscall-Relays_example :
    forking_syscall work willing []
    ≡ (ok (done (pos 0)), waitpid (pos 5) ∷ read success (umask 0 ∷ started 5 []))
unfolding packet_of
forking_syscall-Relays_example =
    forking_syscall-Relays work willing [] (pos 5) success (umask 0 ∷ started 5 []) 0 5
      (ok (done (pos 0))) (ok (done (pos 0))) Relays-success refl (omega arith) refl refl

child_ends : mknodat_child caller_caps (pos 7) (codes "x/") 0o020666 0x103 willing [] ≡ (
  ok (done (pos 5)),
  (mknodat_child caller_caps (pos 7) (codes "x/") 0o020666 0x103 willing []).1,
)
unfolding mknodat_child pve_lxc_syscalld.NsFd.openat pve_lxc_syscalld.AppArmor.set_label
    pve_lxc_syscalld.Capability.SecureBits.get_current pve_lxc_syscalld.Capability.SecureBits.apply
    pve_lxc_syscalld.Capability.capset
child_ends = refl

mknodat_child_lem_example :
    ((mknodat_child caller_caps (pos 7) (codes "x/") 0o020666 0x103 willing []).1
      ≡ mknodat (pos 7) (codes "x/") 0o020666 0x103 ∷ taken_over willing caller_caps [])
    × (done (pos 5)
        ≡ status_for (
            willing.reply
              (taken_over willing caller_caps [])
              (mknodat (pos 7) (codes "x/") 0o020666 0x103)))
mknodat_child_lem_example =
    mknodat_child_lem willing []
      (mknodat_child caller_caps (pos 7) (codes "x/") 0o020666 0x103 willing []).1 caller_caps
      (pos 7) (codes "x/") 0o020666 0x103 (done (pos 5)) refl child_ends

abbrev request : ProxyMessageBuffer
request = record (scatter fresh packet) { pid_fd = some caller; mem_fd = some (pos 11) }

made :
    SysMknod.mknodat linux_numbers request container []
    ≡ (ok (done (pos 0)), (SysMknod.mknodat linux_numbers request container []).1)
unfolding SysMknod.mknodat scatter pve_lxc_syscalld.Seccomp.decode_notif pve_lxc_syscalld.Base.words
    pve_lxc_syscalld.Base.le_value pve_lxc_syscalld.Seccomp.encode_notif
    pve_lxc_syscalld.Base.unwords pve_lxc_syscalld.Base.le_bytes new
    pve_lxc_syscalld.Process.PidFd.fd_num pve_lxc_syscalld.Syscall.get_c_string
    pve_lxc_syscalld.Process.PidFd.get_status pve_lxc_syscalld.Process.Status.status_lines
    split_lines pve_lxc_syscalld.Process.Text.text_line pve_lxc_syscalld.Process.Status.status_line
    pve_lxc_syscalld.Process.Text.split_ascii_whitespace from_str_radix
    pve_lxc_syscalld.Process.PidFd.get_cgroups pve_lxc_syscalld.Process.CGroups.read_lines
    pve_lxc_syscalld.Process.CGroups.read_line pve_lxc_syscalld.AppArmor.get_label
    pve_lxc_syscalld.Process.CGroups.empty pve_lxc_syscalld.NsFd.openat
    pve_lxc_syscalld.AppArmor.set_label pve_lxc_syscalld.Capability.SecureBits.get_current
    pve_lxc_syscalld.Capability.SecureBits.apply pve_lxc_syscalld.Capability.capset
made = refl

mknodat-AsCaller_example :
    AsCaller linux_numbers request container []
      (SysMknod.mknodat linux_numbers request container []).1
      (done (pos 0))
mknodat-AsCaller_example =
    mknodat-AsCaller linux_numbers request container []
      (SysMknod.mknodat linux_numbers request container []).1 (done (pos 0)) (ground arith) made

abbrev both_versions : List Entry
both_versions =
    record {
      num = codes "1";
      names = codes "freezer" ∷ codes "devices" ∷ [];
      path = codes "/lxc/1";
    }
    ∷ record { num = codes "0"; names = []; path = codes "/lxc/100" }
    ∷ []

text_of_names : is_utf8 (codes "freezer,devices") ≡ true
unfolding is_utf8
text_of_names = refl

text_of_none : is_utf8 [] ≡ true
unfolding is_utf8
text_of_none = refl

get-read_lines_example :
    (c : CGroups) × (read_lines empty (lines_of both_versions) ≡ ok c)
    × (get c (codes "devices") ≡ some (codes "/lxc/1"))
    × (c.v2 ≡ some (codes "/lxc/100"))
get-read_lines_example = get-read_lines (codes "devices") both_versions (
  record { num_fits = ground arith; names_fit = ground arith; is_text = text_of_names },
  (record { num_fits = ground arith; names_fit = tt; is_text = text_of_none }, tt),
)
