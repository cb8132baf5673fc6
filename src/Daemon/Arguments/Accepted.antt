-- ===== src/Daemon/Arguments/Accepted.antt =====
-- Which command lines start the daemon, in `main` of src/main.rs.
use pve_lxc_syscalld.Base.{
  Bytes, codes, bytes_eq, List, [], ◌∷◌, ◌++◌, Bool, true, false, ◌||◌, if◌then◌else◌, Option, none,
  some, ok, ◌≡◌, ◌↔◌, ◌⊎◌, All, arith,
}
use pve_lxc_syscalld.Daemon.Arguments.{
  run, starts_with_dash, operand_loop, is_help, option_loop, parse_args,
}

abbrev pub is_marker : Bytes → Bool
is_marker arg = bytes_eq arg (codes "--")

abbrev pub is_system : Bytes → Bool
is_system arg = bytes_eq arg (codes "--system")

-- The arguments before the first `--`, and behind it.
abbrev pub before : List Bytes → List Bytes
before [] = []
before (arg ∷ args) = if is_marker arg then [] else arg ∷ before args

abbrev pub behind : List Bytes → List Bytes
behind [] = []
behind (arg ∷ args) = if is_marker arg then args else behind args

-- Those that are not `--system`.
abbrev pub plain : List Bytes → List Bytes
plain [] = []
plain (arg ∷ args) = if is_system arg then plain args else arg ∷ plain args

abbrev pub has_system : List Bytes → Bool
has_system [] = false
has_system (arg ∷ args) = is_system arg || has_system args

-- It does not ask for help, and if it looks like an option it is `--system`.
abbrev pub IsKnown : Bytes → Type 0
IsKnown arg = (is_help arg ≡ false) × ((is_system arg ≡ true) ⊎ (starts_with_dash arg ≡ false))

-- The command line has these options before the marker, and in all one path.
pub record Starts (args : List Bytes) (use_sd_notify : Bool) (path : Bytes) : Type 0 where
  pub known : All IsKnown (before args)
  pub one_path : plain (before args) ++ behind args ≡ path ∷ []
  pub notifies : has_system (before args) ≡ use_sd_notify

abbrev listed : Option Bytes → List Bytes
listed none = []
listed (some path) = path ∷ []

operand_loop_iff :
    (program : Bytes) (s : Bool) (o : Option Bytes) (args : List Bytes) (sd : Bool) (path : Bytes)
    → (operand_loop program s o args ≡ run sd path) ↔ ((listed o ++ args ≡ path ∷ []) × (s ≡ sd))
unfolding operand_loop
operand_loop_iff program s none [] sd path = ground arith
operand_loop_iff program s (some p) [] sd path = ground arith
operand_loop_iff program s none (arg ∷ args) sd path =
    ground (arith, operand_loop_iff program s (some arg) args sd path)
operand_loop_iff program s (some p) (arg ∷ args) sd path = ground arith

pub marker-ne-help : (arg : Bytes) → is_marker arg ≡ true → is_help arg ≡ false
marker-ne-help [] h = ground arith
marker-ne-help (a ∷ []) h = ground arith
marker-ne-help (a ∷ b ∷ []) h = ground arith
marker-ne-help (a ∷ b ∷ c ∷ arg) h = ground arith

option_loop_iff :
    (program : Bytes) (s : Bool) (o : Option Bytes) (args : List Bytes) (sd : Bool) (path : Bytes)
    → (option_loop program s o args ≡ run sd path) ↔ (
        All IsKnown (before args)
        × (listed o ++ (plain (before args) ++ behind args) ≡ path ∷ [])
        × (s || has_system (before args) ≡ sd))
unfolding option_loop
option_loop_iff program s none [] sd path = ground arith
option_loop_iff program s (some p) [] sd path = ground arith
option_loop_iff program s none (arg ∷ args) sd path = ground (
  arith,
  marker-ne-help arg,
  operand_loop_iff program s none args sd path,
  option_loop_iff program true none args sd path,
  option_loop_iff program s (some arg) args sd path,
)
option_loop_iff program s (some p) (arg ∷ args) sd path = ground (
  arith,
  marker-ne-help arg,
  operand_loop_iff program s (some p) args sd path,
  option_loop_iff program true (some p) args sd path,
)

-- The daemon starts on a path exactly when each argument before the first `--` is `--system` or does not
-- begin with a dash, and the others of these and all arguments behind the `--` are that one path. It
-- notifies systemd exactly when `--system` stands before the `--`. The order of the arguments does not
-- matter, and a path behind the `--` may begin with a dash.
pub parse_args_iff :
    (program : Bytes) (args : List Bytes) (use_sd_notify : Bool) (path : Bytes)
    → (parse_args (program ∷ args) ≡ ok (run use_sd_notify path)) ↔ Starts args use_sd_notify path
unfolding parse_args
parse_args_iff program args sd path =
    ground (arith, option_loop_iff program false none args sd path)
