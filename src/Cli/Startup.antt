-- ===== src/Cli/Startup.antt =====
-- What the process does with its arguments (`main`, main/src/main.rs).
pub mod Extension
use Prim.Native.String.{◌++◌ as ◌<>◌}
use cargo_stylus.Common.{
  String, Bool, true, false, not, ◌||◌, ◌&&◌, List, [], ◌∷◌, drop, if◌then◌else◌,
}
use cargo_stylus.Common.Text.{str_eq, contains}

unfoldable pub is_deprecated_extension : String → Bool
is_deprecated_extension subcommand =
    str_eq subcommand "cargo-stylus-check"
    || str_eq subcommand "cargo-stylus-cgen"
    || str_eq subcommand "cargo-stylus-replay"

unfoldable pub is_starting : String → Bool
unfolding contains
is_starting x = str_eq x "cargo" || str_eq x "stylus" || contains x "cargo-stylus"

-- `.skip_while(…)`
unfoldable pub skip_starting : List String → List String
unfolding is_starting
skip_starting [] = []
skip_starting (x ∷ args) = let rest = skip_starting args in if is_starting x then rest else x ∷ args

-- The help or the version is printed, another program takes the place of the process, or clap reads
-- the arguments.
pub data Startup : Type 0 where
  help version : Startup
  extension : (program : String) → (args : List String) → Startup
  parse_from : (args : List String) → Startup

unfoldable pub custom_name : String → String
custom_name arg = "cargo-stylus-" <> arg

-- The process's arguments, and which commands exist on the host
module _ (command_exists : String → Bool) where
  unfoldable pub after_builtins :
      (all : List String) → (arg : String) → (args : List String) → Startup
  unfolding custom_name is_deprecated_extension
  after_builtins all arg args =
      if command_exists (custom_name arg) && not (is_deprecated_extension (custom_name arg))
      then extension (custom_name arg) (arg ∷ args)
      else parse_from (drop 1 all)

  unfoldable pub first_argument : (all : List String) → (left : List String) → Startup
  unfolding after_builtins
  first_argument all [] = help
  first_argument all (arg ∷ args) =
      if str_eq arg "--help" || str_eq arg "-h"
      then help
      else if str_eq arg "--version" || str_eq arg "-V"
      then version
      else after_builtins all arg args

  unfoldable pub main : List String → Startup
  unfolding first_argument skip_starting
  main args = first_argument args (skip_starting args)
