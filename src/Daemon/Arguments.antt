-- ===== src/Daemon/Arguments.antt =====
-- The arguments, in `main` of src/main.rs.
pub mod Accepted
pub mod Refused
use pve_lxc_syscalld.Base.{
  ◌++◌, ℤ, pos, Bytes, codes, bytes_eq, List, [], ◌∷◌, Bool, true, false, ◌||◌, ◌==◌, if◌then◌else◌,
  Option, none, some, Result, ok, panic,
}

-- Either `usage` exits with a status, after some output, or the daemon runs. The output goes to stdout if
-- the status is 0, and to stderr otherwise.
pub data Parsed : Type 0 where
  usage : ℤ → Bytes → Parsed
  run : Bool → Bytes → Parsed

-- `arg.as_bytes().starts_with(b"-")`
unfoldable pub starts_with_dash : Bytes → Bool
starts_with_dash [] = false
starts_with_dash (b ∷ bs) = b == b'-'

module _ (program : Bytes) where
  -- What `usage` writes. The source has no blank behind the program's name.
  unfoldable pub usage_text : Bytes
  usage_text =
      codes "usage: "
      ++ (program
          ++ (codes "[options] SOCKET_PATH\n"
              ++ (codes "options:\n"
                  ++ (codes "    -h, --help      show this help message\n"
                      ++ (codes "    --system        run as systemd daemon "
                          ++ codes "(use sd_notify() when ready to accept connections)\n")))))

  -- A message before it, with status 1.
  unfoldable pub refused : Bytes → Parsed
  unfolding usage_text
  refused reason = usage (pos 1) (reason ++ usage_text)

  -- After the loops: the path has to be there.
  unfoldable pub finish_args : Bool → Option Bytes → Parsed
  unfolding refused
  finish_args use_sd_notify none = refused (codes "missing path\n")
  finish_args use_sd_notify (some path) = run use_sd_notify path

  -- `nonopt_arg` on a second path
  unfoldable pub extra : Bytes → Parsed
  unfolding refused
  extra arg = refused (codes "unexpected extra parameter: " ++ (arg ++ b'\n' ∷ []))

  -- The second loop, over what stands behind `--`.
  unfoldable pub operand_loop : Bool → Option Bytes → List Bytes → Parsed
  unfolding finish_args extra
  operand_loop use_sd_notify path [] = finish_args use_sd_notify path
  operand_loop use_sd_notify none (arg ∷ args) = operand_loop use_sd_notify (some arg) args
  operand_loop use_sd_notify (some path) (arg ∷ args) = extra arg

abbrev pub is_help : Bytes → Bool
is_help arg = bytes_eq arg (codes "-h") || bytes_eq arg (codes "--help")

module _ (program : Bytes) where
  -- The first loop. `nonopt_arg` refuses a second path.
  unfoldable pub option_loop : Bool → Option Bytes → List Bytes → Parsed
  unfolding usage_text refused finish_args extra operand_loop starts_with_dash
  option_loop use_sd_notify path [] = finish_args program use_sd_notify path
  option_loop use_sd_notify path (arg ∷ args) =
      let flagged = option_loop true path args in
      let stored = option_loop use_sd_notify (some arg) args in
      if is_help arg
      then usage (pos 0) (usage_text program)
      else if bytes_eq arg (codes "--")
      then operand_loop program use_sd_notify path args
      else if bytes_eq arg (codes "--system")
      then flagged
      else if starts_with_dash arg
      then refused program (codes "unexpected option: " ++ (arg ++ b'\n' ∷ []))
      else elim path [ none ↦ stored | some p ↦ extra program arg ]

-- `args_os()`, of which the first is the program's name.
unfoldable pub parse_args : List Bytes → Result Parsed
unfolding option_loop
parse_args [] = panic
parse_args (program ∷ args) = ok (option_loop program false none args)
