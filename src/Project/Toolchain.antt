-- ===== src/Project/Toolchain.antt =====
-- The files that name the toolchain and the package (`extract_toolchain_channel`,
-- `extract_cargo_toml_version` and `extract_cargo_lib_or_project_name`, main/src/project.rs).
pub mod Channel
use cargo_stylus.Common.{
  ℕ, String, Bool, true, false, ◌||◌, ◌&&◌, Option, none, some, List, [], ◌∷◌, if◌then◌else◌, leb,
  ◌==◌,
}
use cargo_stylus.Common.Text.{str_eq, filter_chars}
use cargo_stylus.Common.Outcome
use cargo_stylus.Common.Outcome.{Outcome, ok, err, ◌>>=◌}

-- What is used of `toml::Value`
mutual
  pub data Value : Type 0 where
    string : String → Value
    table : Fields → Value
    other : Value

  pub data Fields : Type 0 where
    end : Fields
    field : String → Value → Fields → Fields

pub find_field : String → Fields → Option Value
find_field key end = none
find_field key (field name value rest) = if str_eq name key then some value else find_field key rest

-- `value.get(key)`
unfoldable pub get : String → Value → Option Value
unfolding find_field
get key (table fields) = find_field key fields
get key _ = none

-- `value.as_str()`
unfoldable pub as_str : Value → Option String
as_str (string s) = some s
as_str _ = none

pub data TomlError : Type 0 where
  no_file not_toml no_section no_entry not_a_string generic_channel : TomlError

-- `fs::read_to_string` of the file, and `toml::from_str`
unfoldable pub parse_file : Option String → (String → Option Value) → Outcome TomlError Value
parse_file contents from_str =
    Outcome.ok_or no_file contents >>= λ text. Outcome.ok_or not_toml (from_str text)

-- The entry of a section
unfoldable pub entry_of : String → String → Value → Outcome TomlError Value
unfolding get
entry_of section key value =
    Outcome.ok_or no_section (get section value) >>= λ found. Outcome.ok_or no_entry (get key found)

unfoldable pub string_of : String → String → Value → Outcome TomlError String
unfolding entry_of as_str
string_of section key value =
    entry_of section key value >>= λ found. Outcome.ok_or not_a_string (as_str found)

unfoldable pub is_generic : String → Bool
is_generic channel = str_eq channel "stable" || str_eq channel "nightly" || str_eq channel "beta"

-- `char::is_alphanumeric`, whose table beyond ASCII is an argument.
unfoldable pub is_alphanumeric : (ℕ → Bool) → ℕ → Bool
is_alphanumeric beyond c =
    leb b'a' c && leb c b'z'
    || leb b'A' c && leb c b'Z'
    || leb b'0' c && leb c b'9'
    || leb 128 c && beyond c

unfoldable pub is_channel_char : (ℕ → Bool) → ℕ → Bool
unfolding is_alphanumeric
is_channel_char beyond c = is_alphanumeric beyond c || c == b'-' || c == b'.'

unfoldable pub check_channel : (ℕ → Bool) → String → Outcome TomlError String
unfolding is_generic is_channel_char filter_chars
check_channel beyond channel =
    if is_generic channel
    then err generic_channel
    else ok (filter_chars (is_channel_char beyond) channel)

unfoldable pub extract_toolchain_channel :
    (ℕ → Bool) → (String → Option Value) → Option String → Outcome TomlError String
unfolding parse_file string_of check_channel
extract_toolchain_channel beyond from_str contents = parse_file contents from_str >>= λ toml.
    string_of "toolchain" "channel" toml >>= λ channel. check_channel beyond channel

unfoldable pub extract_cargo_toml_version :
    (String → Option Value) → Option String → Outcome TomlError String
unfolding parse_file string_of
extract_cargo_toml_version from_str contents =
    parse_file contents from_str >>= λ toml. string_of "package" "version" toml

-- The name of the library, if there is one
unfoldable pub lib_name : Value → Option Value
unfolding get
lib_name toml = elim (get "lib" toml) [ none ↦ none | some lib ↦ get "name" lib ]

-- A name is shown by `Value::to_string`.
unfoldable pub extract_cargo_lib_or_project_name :
    (Value → String) → (String → Option Value) → Option String → Outcome TomlError String
unfolding parse_file entry_of lib_name
extract_cargo_lib_or_project_name to_string from_str contents =
    parse_file contents from_str >>= λ toml. elim (lib_name toml) [
      | some name ↦ ok (to_string name)
      | none ↦ entry_of "package" "name" toml >>= λ name. ok (to_string name)
    ]
