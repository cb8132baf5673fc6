-- ===== src/AppArmor.antt =====
-- src/apparmor.rs: the AppArmor label of a process.
use Prim.Native.Nat.{bit_or}
use pve_lxc_syscalld.Base.{
  eq_ℤ, Bytes, codes, [], ◌∷◌, ◌++◌, Option, some, none, Result, ok, err, panic, hang, os, io_kind,
  unexpected_eof, ◌==◌, ◌||◌, if◌then◌else◌,
}
use pve_lxc_syscalld.Libc.{einval, o_rdwr, o_cloexec}
use pve_lxc_syscalld.Kernel.{Action, ◌>>=◌, ◌>>◌, lift, pure, c_try, c_result, attempt, write_all}
use pve_lxc_syscalld.Process.PidFd.{PidFd, read_whole, fd_at}

-- What stands before the first blank or newline.
unfoldable pub truncate_label : Bytes → Bytes
truncate_label [] = []
truncate_label (c ∷ cs) = if c == 0x20 || c == b'\n' then [] else c ∷ truncate_label cs

-- The `match` on the file's content: `EINVAL` means that there is no label.
unfoldable pub label_of : Result Bytes → Result (Option Bytes)
unfolding truncate_label
label_of (ok []) = err (io_kind unexpected_eof)
label_of (ok (c ∷ cs)) = ok (some (truncate_label (c ∷ cs)))
label_of (err (os e)) = if eq_ℤ e einval then ok none else err (os e)
label_of (err e) = err e
label_of panic = panic
label_of hang = hang

unfoldable pub get_label : PidFd → Action (Option Bytes)
unfolding read_whole label_of
get_label p = do out ← attempt (read_whole p (codes "attr/current")); lift (label_of out)

unfoldable pub set_label : PidFd → Bytes → Action (Unit {0})
unfolding fd_at c_result
set_label p label = do
  fd ← fd_at p (codes "attr/current") (bit_or o_rdwr o_cloexec) 0
  c_try (write_all fd (codes "changeprofile " ++ label))
  pure tt
