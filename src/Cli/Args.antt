-- ===== src/Cli/Args.antt =====
-- The arguments of the program and the settings from its environment, as main of src/main.rs reads
-- them.
-- What main is to do. usage is an exit with status 2.
pub mod Printing
use mathlib.Core.Option
use snerdmq.Base.{
  subst, ◌∙◌, [], unwrap_or, ◌≡◌, ◌++◌, ◌==◌, ℕ, codes, text_dec, inl, ite, ◌-◌, Text, refl, ◌<◌,
  ◌^◌, ◌∷◌, none, List, Option, inr, ◌≢◌, if_neg, arith, Bool-cases, some,
}
use snerdmq.Cli.{strip_prefix}
use snerdmq.Base.Digits.{parse_u32-decimal, parse_u64, decimal, parse_u32}

pub data Command : Type 0 where
  usage : Command
  add_shards : ℕ → Text → Command
  validate : Text → Command
  replay : Text → Text → Command
  daemon : Text → Command

abbrev pub default_dir : Text
default_dir = codes ".snerdata"

-- The arguments after `add-shards`; what follows the first two is not looked at.
unfoldable pub add_shards_args : List Text → Command
unfolding parse_u32
add_shards_args (n ∷ dir ∷ rest) = elim (parse_u32 n) [
  | some count ↦ add_shards count dir
  | none ↦ usage
]
add_shards_args _ = usage

unfoldable pub validate_args : List Text → Command
validate_args [] = usage
validate_args (dir ∷ rest) = validate dir

-- What an argument is to the loop over the arguments after `replay`.
pub data ReplayArg : Type 0 where
  type_equals : Text → ReplayArg
  type_flag other_flag : ReplayArg
  directory : Text → ReplayArg

unfoldable pub replay_arg : Text → ReplayArg
unfolding strip_prefix
replay_arg a = elim (strip_prefix (codes "--type=") a) [
  | some target ↦ type_equals target
  | none ↦
      ite (text_dec a (codes "--type")) type_flag
        (elim (strip_prefix (codes "-") a) [ some rest ↦ other_flag | none ↦ directory a ])
]

-- The loop. `--type` at the end is passed over like any other flag.
unfoldable pub replay_args : Text → Text → List Text → Command
unfolding replay_arg
replay_args target dir [] = replay target dir
replay_args target dir (a ∷ []) = elim (replay_arg a) [
  | type_equals t ↦ replay t dir
  | type_flag ↦ replay target dir
  | other_flag ↦ replay target dir
  | directory d ↦ replay target d
]
replay_args target dir (a ∷ b ∷ rest) = elim (replay_arg a) [
  | type_equals t ↦ replay_args t dir (b ∷ rest)
  | type_flag ↦ replay_args b dir rest
  | other_flag ↦ replay_args target dir (b ∷ rest)
  | directory d ↦ replay_args target d (b ∷ rest)
]

-- `args` is std::env::args(), with the program's name first.
unfoldable pub parse_args : List Text → Command
unfolding add_shards_args validate_args replay_args
parse_args (program ∷ command ∷ rest) =
    ite (text_dec command (codes "add-shards")) (add_shards_args rest) (
      ite (text_dec command (codes "validate")) (validate_args rest) (
        ite (text_dec command (codes "replay")) (replay_args (codes "all") default_dir rest)
          (daemon command)))
parse_args _ = daemon default_dir

-- A number of the environment, or its default where it is unset or no number.
unfoldable pub setting : (Text → Option ℕ) → Option Text → ℕ → ℕ
setting parse var default = unwrap_or (Option.bind var parse) default

pub record Settings : Type 0 where
  pub requested_shards : ℕ
  pub max_shards : ℕ
  pub max_workers : ℕ
  pub drain_timeout_secs : ℕ

-- A usize has 64 bits.
unfoldable pub settings : (Text → Option Text) → Settings
unfolding setting
settings var = record {
  requested_shards = setting parse_u32 (var (codes "SNERD_SHARDS")) 1;
  max_shards = setting parse_u64 (var (codes "SNERD_MAX_SHARDS")) 1;
  max_workers = setting parse_u64 (var (codes "SNERD_MAX_WORKERS")) 100;
  drain_timeout_secs = setting parse_u64 (var (codes "SNERD_DRAIN_TIMEOUT")) 30;
}
