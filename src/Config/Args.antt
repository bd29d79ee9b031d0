-- ===== src/Config/Args.antt =====
-- daq/configurator.py: the arguments of the command line, and the lines that print a configuration.
use daq.Config.Tree.{Text, Fields, flag, codes, text_eq}
use daq.Config.Flat.{
  on_option, Outcome, done, failed, ◌>>=◌, unknown_arg, parse_flat_item, flat_item, split_once,
}
use daq.Config.Files.{Disk, merge_config}
use daq.Base.{
  ℕ, suc, String, true, Option, none, List, [], ◌∷◌, if◌then◌else◌, ◌==◌, nat_eq, string_eq, length,
  pair_eq,
}
use daq.Base.Dict.{Dict, get}

-- `FLAG_MAP`
abbrev pub flag_map : Dict ℕ String
flag_map =
    (b'b', "build_tests")
    ∷ (b'c', "use_console")
    ∷ (b'd', "debug_mode")
    ∷ (b'e', "event_trigger")
    ∷ (b'f', "fail_mode")
    ∷ (b'h', "show_help")
    ∷ (b'k', "keep_hold")
    ∷ (b'l', "result_linger")
    ∷ (b'n', "no_test")
    ∷ (b's', "single_shot")
    ∷ []

-- `FLAG_MAP[arg[1:]]` of an argument without its dash: each key of the map is one character.
unfoldable pub flag_name : Text → Option String
flag_name (c ∷ []) = get c flag_map
flag_name _ = none

-- `parse_args`, one argument.
unfoldable pub parse_arg : ℕ → Disk → Text → Fields → Outcome Fields
unfolding flag_name split_once flat_item parse_flat_item merge_config
parse_arg rounds disk [] config = done config
parse_arg rounds disk (c ∷ arg) config =
    if c == b'-'
    then on_option (flag_name arg) (failed unknown_arg)
        (λ name. parse_flat_item (suc (length (codes name))) config (codes name) (flag true))
    else on_option (split_once b'=' (c ∷ arg)) (merge_config rounds disk config (c ∷ arg) [])
        (λ parts. flat_item config parts.0 parts.1)

-- `parse_args`, of the arguments after the program's name.
unfoldable pub parse_args : ℕ → Disk → List Text → Fields → Outcome Fields
unfolding parse_arg
parse_args rounds disk [] config = done config
parse_args rounds disk (arg ∷ args) config =
    parse_arg rounds disk arg config >>= parse_args rounds disk args
