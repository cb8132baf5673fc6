-- ===== src/NsFd.antt =====
-- src/nsfd.rs: file descriptors of namespaces. The type parameter of `NsFd<T>` is a value here.
use Prim.Native.Nat.{bit_or}
use pve_lxc_syscalld.Base.{ℕ, ℤ, Bytes}
use pve_lxc_syscalld.Libc.{
  at_fdcwd, o_rdonly, o_cloexec, clone_newns, clone_newuser, clone_newcgroup,
}
use pve_lxc_syscalld.Kernel.{
  Action, ◌>>=◌, ◌>>◌, pure, c_try, openat as sys_openat, setns as sys_setns,
}

pub data NsType : Type 0 where
  mount user cgroup : NsType

unfoldable pub type_number : NsType → ℕ
type_number mount = clone_newns
type_number user = clone_newuser
type_number cgroup = clone_newcgroup

pub record NsFd : Type 0 where
  pub fd : ℤ
  pub ns_type : NsType

unfoldable pub openat : NsType → ℤ → Bytes → Action NsFd
openat t fd path = do
  r ← c_try (sys_openat fd path (bit_or o_rdonly o_cloexec) 0)
  pure (record { fd = r.res; ns_type = t })

unfoldable pub open_ns : NsType → Bytes → Action NsFd
unfolding openat
open_ns t path = openat t at_fdcwd path

unfoldable pub setns : NsFd → Action (Unit {0})
unfolding type_number
setns n = do c_try (sys_setns n.fd (type_number n.ns_type)); pure tt
