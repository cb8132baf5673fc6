-- ===== src/Process/PidFd/Maps.antt =====
-- Reading an id map, in src/process/pid_fd.rs, from the file to the map.
use Prim.Native.Nat.{bit_or}
use pve_lxc_syscalld.Base.{List, ℤ, minus_one, eq_ℤ, Bytes, ◌∷◌, All, ok, false, ◌≡◌, refl}
use pve_lxc_syscalld.Libc.{o_rdonly, o_cloexec}
use pve_lxc_syscalld.Kernel.{Call, Kernel, History, openat, read_file, c_result}
use pve_lxc_syscalld.Process.IdMap.RoundTrip.{IsEntry}
use pve_lxc_syscalld.Process.Status.MapFile.{Line, map_text, entries, map_lines-map_text}
use pve_lxc_syscalld.Process.PidFd.{PidFd, lines_of, fd_at, get_uid_gid_map}

abbrev pub opening : PidFd → Bytes → Call
opening p file = openat p.fd file (bit_or (bit_or o_rdonly o_cloexec) o_cloexec) 0

-- If the file can be opened and read, and holds what the kernel prints of a map, whatever blanks it pads
-- the numbers with, then the result is that map, and the two calls are all that were made.
pub get_uid_gid_map_reads :
    (p : PidFd) (file : Bytes) (ls : List Line) (fd : ℤ) (k : Kernel) (h : History)
    → All IsEntry (entries ls)
    → (k.reply h (opening p file)).res ≡ fd
    → eq_ℤ fd minus_one ≡ false
    → eq_ℤ (k.reply (opening p file ∷ h) (read_file fd)).res minus_one ≡ false
    → (k.reply (opening p file ∷ h) (read_file fd)).out ≡ map_text ls
    → get_uid_gid_map p file k h ≡ (ok (entries ls), read_file fd ∷ opening p file ∷ h)
unfolding get_uid_gid_map lines_of fd_at c_result
get_uid_gid_map_reads p file ls fd k h w q f r t =
    rw (q, f) (rw (r, t) (rw (map_lines-map_text ls w) refl))
