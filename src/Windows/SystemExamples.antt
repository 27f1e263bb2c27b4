-- ===== src/Windows/SystemExamples.antt =====
-- windows/src/util.cpp and windows/src/dsh_update_manager.cpp at concrete inputs.
use harness_desktop.Base.{
  ◌≡◌, refl, [], ◌∷◌, none, some, codes, bytes_eq, ◌++◌, if◌then◌else◌, arith,
}
use harness_desktop.Base.Decimal.{decimal}
use harness_desktop.Settings.{leading_number}
use harness_desktop.Windows.Guard.{Environment, sets, sets_if_absent, restore, calls, restore-calls}
use harness_desktop.Windows.Paths.{
  join_path, find_last, dir_name, base_name, unique_from, make_unique_path, quote_arg,
}
use harness_desktop.Windows.Arguments.{
  default_command, default_settings, stoul, digits_value, environment_settings, parsed, throws,
  take_option, parse_args, same_texts, completed, parse,
}
use harness_desktop.Util.Version.Rounds.{IsComponent, dotted, values}
use harness_desktop.Windows.Order.{lexicographic, compare_versions-dotted}
use harness_desktop.Windows.Versions.{
  newer, pieces, before_dash, atoi, part_value, compare_from, compare_versions,
}

abbrev path_only : Environment
path_only name = if bytes_eq name (codes "PATH") then some (codes "C:") else none

restore-calls_example :
    restore
      ((calls
        (sets (codes "PATH") [] ∷ sets_if_absent (codes "A") (codes "1") ∷ [])
        (record { env = path_only; entries = [] })).entries)
      ((calls
        (sets (codes "PATH") [] ∷ sets_if_absent (codes "A") (codes "1") ∷ [])
        (record { env = path_only; entries = [] })).env)
    ≡ path_only
restore-calls_example =
    restore-calls (sets (codes "PATH") [] ∷ sets_if_absent (codes "A") (codes "1") ∷ []) path_only

newer_run : compare_versions (codes "1.10-beta") (codes "1.9.9") ≡ newer
unfolding compare_versions compare_from part_value pieces before_dash atoi leading_number
newer_run = refl

IsComponent-10 : IsComponent (codes "10")
IsComponent-10 = record {
  digits = (refl, (refl, tt));
  some_digit = omega arith;
  fits = omega arith;
}

IsComponent-9 : IsComponent (codes "9")
IsComponent-9 = record { digits = (refl, tt); some_digit = omega arith; fits = omega arith }

compare_versions-dotted_example :
    compare_versions (dotted (codes "9" ∷ codes "10" ∷ [])) (dotted (codes "9" ∷ codes "9" ∷ []))
    ≡ lexicographic 4 (values (codes "9" ∷ codes "10" ∷ [])) (values (codes "9" ∷ codes "9" ∷ []))
compare_versions-dotted_example =
    compare_versions-dotted (codes "9" ∷ codes "10" ∷ []) (codes "9" ∷ codes "9" ∷ [])
      (IsComponent-9, (IsComponent-10, tt)) (IsComponent-9, (IsComponent-9, tt))

unique_run :
    make_unique_path (λ path. bytes_eq path (codes "C:\\d\\a (1).txt")) (codes "C:\\d\\a.txt")
    ≡ codes "C:\\d\\a (2).txt"
unfolding make_unique_path join_path dir_name base_name find_last unique_from decimal bytes_eq
unique_run = refl

quote_run :
    quote_arg (codes "C:\\Program Files\\node.exe") ≡ codes "\"C:\\Program Files\\node.exe\""
unfolding quote_arg
quote_run = refl

-- A minus sign wraps around in 32 bits.
stoul_run : stoul (codes " -4294964216") ≡ some 3080
unfolding stoul digits_value
stoul_run = refl

parse_run :
    parse (λ name. []) (codes "--port" ∷ codes "70000" ∷ codes "--host" ∷ codes "h" ∷ [])
    ≡ parsed (record default_settings {
      host = codes "h";
      command =
          default_command
          ++ (codes "--host" ∷ codes "h" ∷ codes "--port" ∷ codes "3080" ∷ codes "--no-open" ∷ []);
    })
unfolding parse environment_settings parse_args take_option stoul digits_value completed same_texts
    decimal bytes_eq
parse_run = refl

refused_run : parse (λ name. []) (codes "--port" ∷ codes "x" ∷ []) ≡ throws
unfolding parse environment_settings parse_args take_option stoul bytes_eq
refused_run = refl
