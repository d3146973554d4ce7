-- ===== src/Cli/Args/Printing.antt =====
-- The arguments of the program written and read back, for main of src/main.rs.
-- The arguments that stand for a command, with the options before the directory.
use snerdmq.Base.{
  List, ℕ, Bool-cases, ◌∙◌, arith, Text, refl, codes, ◌^◌, ◌==◌, ◌≢◌, ◌∷◌, ◌<◌, ◌++◌, subst, if_neg,
  ◌≡◌, inl, none, some, [], inr,
}
use snerdmq.Cli.{strip_prefix}
use snerdmq.Base.Digits.{decimal, parse_u32-decimal}
use snerdmq.Cli.Args.{
  replay, replay_arg, replay_args, validate, daemon, parse_args, usage, add_shards_args, add_shards,
  type_equals, directory, validate_args, default_dir, Command,
}

unfoldable pub print_command : Command → List Text
unfolding decimal
print_command usage = codes "validate" ∷ []
print_command (add_shards n dir) = codes "add-shards" ∷ decimal n ∷ dir ∷ []
print_command (validate dir) = codes "validate" ∷ dir ∷ []
print_command (replay target dir) = codes "replay" ∷ (codes "--type=" ++ target) ∷ dir ∷ []
print_command (daemon dir) = dir ∷ []

-- A directory whose name does not start with `-`.
abbrev pub IsDirectory : Text → Type 0
IsDirectory dir = strip_prefix (codes "-") dir ≡ none

-- A count is a u32, a directory of `replay` is no option, and one of the daemon is no subcommand.
abbrev pub IsPrintable : Command → Type 0
IsPrintable usage = Unit
IsPrintable (add_shards n dir) = n < 2 ^ 32
IsPrintable (validate dir) = Unit
IsPrintable (replay target dir) = IsDirectory dir
IsPrintable (daemon dir) =
    (dir ≢ codes "add-shards") × (dir ≢ codes "validate") × (dir ≢ codes "replay")

strip_prefix-append : (p s : Text) → strip_prefix p (p ++ s) ≡ some s
unfolding strip_prefix
strip_prefix-append [] s = refl
strip_prefix-append (c ∷ p) s = rw (strip_prefix-append p s) (ground arith)

-- What starts with more starts with less.
strip_prefix-longer : (p q s : Text) → strip_prefix p s ≡ none → strip_prefix (p ++ q) s ≡ none
unfolding strip_prefix
strip_prefix-longer [] q s h = cc
strip_prefix-longer (c ∷ p) q [] h = refl
strip_prefix-longer (c ∷ p) q (x ∷ s) h = elim (Bool-cases (c == x)) [
  | inl e ↦ rw e (strip_prefix-longer p q s (rw (strip_prefix, e) at h))
  | inr e ↦ rw e refl
]

replay_arg-type :
    (a target : Text)
    → strip_prefix (codes "--type=") a ≡ some target
    → replay_arg a ≡ type_equals target
unfolding replay_arg
replay_arg-type a target h = rw (replay_arg, h) refl

flag_ne : (dir : Text) → IsDirectory dir → dir ≢ codes "--type"
unfolding strip_prefix
flag_ne dir h e =
    let bad : strip_prefix (codes "-") (codes "--type") ≡ none =
      subst (λ x. strip_prefix (codes "-") x ≡ none) e h in
    absurd (cc bad)

replay_arg-directory : (dir : Text) → IsDirectory dir → replay_arg dir ≡ directory dir
unfolding replay_arg
replay_arg-directory dir h =
    let long : strip_prefix (codes "--type=") dir ≡ none =
      strip_prefix-longer (codes "-") (codes "-type=") dir h in
    rw (replay_arg, long, h) (ground (arith, flag_ne dir h))

add_shards_args-decimal :
    (n : ℕ) (dir : Text) → n < 2 ^ 32 → add_shards_args (decimal n ∷ dir ∷ []) ≡ add_shards n dir
unfolding add_shards_args
add_shards_args-decimal n dir h = rw (add_shards_args, parse_u32-decimal n h) refl

replay_args-directory :
    (target default dir : Text)
    → IsDirectory dir
    → replay_args target default (dir ∷ []) ≡ replay target dir
unfolding replay_args
replay_args-directory target default dir h = rw (replay_args, replay_arg-directory dir h) refl

replay_args-type :
    (a target default dir : Text)
    → strip_prefix (codes "--type=") a ≡ some target
    → IsDirectory dir
    → replay_args (codes "all") default (a ∷ dir ∷ []) ≡ replay target dir
unfolding replay_args
replay_args-type a target default dir e h =
    rw (replay_args, replay_arg-type a target e) (replay_args-directory target default dir h)

command_add_shards :
    (program : Text) (rest : List Text)
    → parse_args (program ∷ codes "add-shards" ∷ rest) ≡ add_shards_args rest
unfolding parse_args
command_add_shards program rest = ground arith

command_replay :
    (program : Text) (rest : List Text)
    → parse_args (program ∷ codes "replay" ∷ rest) ≡ replay_args (codes "all") default_dir rest
unfolding parse_args
command_replay program rest = ground arith

-- A command that is written as arguments is read back, whatever the program is called: the number of
-- add-shards, the directories, and the type and directory of replay.
pub parse_args-print_command :
    (program : Text) (c : Command) → IsPrintable c → parse_args (program ∷ print_command c) ≡ c
unfolding parse_args print_command validate_args
parse_args-print_command program usage h = ground arith
parse_args-print_command program (add_shards n dir) h =
    command_add_shards program (decimal n ∷ dir ∷ []) ∙ add_shards_args-decimal n dir h
parse_args-print_command program (validate dir) h = ground arith
parse_args-print_command program (replay target dir) h =
    command_replay program ((codes "--type=" ++ target) ∷ dir ∷ [])
    ∙ replay_args-type (codes "--type=" ++ target) target default_dir dir
        (strip_prefix-append (codes "--type=") target) h
parse_args-print_command program (daemon dir) h = rw (if_neg _ h.0, if_neg _ h.1, if_neg _ h.2)
