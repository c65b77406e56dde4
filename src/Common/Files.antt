-- ===== src/Common/Files.antt =====
-- The entries of a directory, as `std::fs::read_dir` gives them.
use mathlib.Core.Bool.{Bool}
use mathlib.Core.Option.{Option, none, some}
use mathlib.Core.List.{List, [], ◌∷◌}
use Prim.Native.String.{String}
use cargo_stylus.Common.Tests.{if◌then◌else◌}

-- An entry, with its file name
pub record Entry : Type 0 where
  pub file_name : Option String
  pub is_file : Bool

-- `filter_map(|r| r.ok())` and `filter(|r| r.is_file())`
unfoldable pub files_in : List (Option Entry) → List Entry
files_in [] = []
files_in (none ∷ entries) = files_in entries
files_in (some e ∷ entries) = let rest = files_in entries in if e.is_file then e ∷ rest else rest
