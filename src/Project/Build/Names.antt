-- ===== src/Project/Build/Names.antt =====
-- What a build reads from Cargo.toml, and the name that cargo gives to the library's file
-- (main/src/project.rs).
use Prim.Native.Char.{code}
use cargo_stylus.Common.{
  ◌≡◌, ◌⊎◌, inl, inr, refl, String, false, Bool-cases, Option, none, some, ◌==◌, arith,
}
use cargo_stylus.Common.Text.{filter_chars}
use cargo_stylus.Common.Outcome
use cargo_stylus.Common.Outcome.{Outcome, ok, err, ◌>>=◌, >>=-eq-ok, ok_or-eq-ok}
use cargo_stylus.Project.Toolchain.{
  Value, no_file, not_toml, no_section, no_entry, not_a_string, get, as_str, parse_file, entry_of,
  string_of, lib_name, extract_cargo_toml_version, extract_cargo_lib_or_project_name,
}
use cargo_stylus.Project.Build.{replace_dash, library_name}

-- A dash becomes an underscore, a double quote is dropped, all else is kept.
pub data IsSpelled : (name spelled : String) → Type 0 where
  nil : IsSpelled "" ""
  dash :
      (c : Prim.Native.Char.Char) (s t : String)
      → code c ≡ 45
      → IsSpelled s t
      → IsSpelled (String.◌∷◌ c s) (String.◌∷◌ "_" t)
  quote :
      (c : Prim.Native.Char.Char) (s t : String)
      → code c ≡ 34
      → IsSpelled s t
      → IsSpelled (String.◌∷◌ c s) t
  keep :
      (c : Prim.Native.Char.Char) (s t : String)
      → (code c == 45) ≡ false
      → (code c == 34) ≡ false
      → IsSpelled s t
      → IsSpelled (String.◌∷◌ c s) (String.◌∷◌ c t)

pub library_name-IsSpelled : (name : String) → IsSpelled name (library_name name)
unfolding library_name replace_dash filter_chars
library_name-IsSpelled String.[] = IsSpelled.nil
library_name-IsSpelled (String.◌∷◌ c s) =
    let rest = library_name-IsSpelled s in
    elim (Bool-cases (code c == 45)) [
      | inl d ↦ rw d (IsSpelled.dash c s (library_name s) (ground arith) rest)
      | inr k ↦ elim (Bool-cases (code c == 34)) [
        | inl q ↦ rw (k, q) (IsSpelled.quote c s (library_name s) (ground arith) rest)
        | inr o ↦ rw (k, o) (IsSpelled.keep c s (library_name s) k o rest)
      ]
    ]

-- The entry of a section
abbrev pub IsEntry : (section key : String) → (toml value : Value) → Type 0
IsEntry section key toml value =
    (found : Value) × (get section toml ≡ some found) × (get key found ≡ some value)

entry_of_ok :
    (section key : String) (toml value : Value)
    → entry_of section key toml ≡ ok value
    → IsEntry section key toml value
unfolding entry_of
entry_of_ok section key toml value h =
    let (found, e, k) = >>=-eq-ok (Outcome.ok_or no_section (get section toml)) _ h in
    (found, ok_or-eq-ok no_section _ found e, ok_or-eq-ok no_entry (get key found) value k)

lib_name-some : (toml value : Value) → lib_name toml ≡ some value → IsEntry "lib" "name" toml value
unfolding lib_name
lib_name-some toml value h = of (get "lib" toml) refl h
  where
    of :
        (lib : Option Value)
        → get "lib" toml ≡ lib
        → (elim lib [ none ↦ none | some l ↦ get "name" l ]) ≡ some value
        → IsEntry "lib" "name" toml value
    of none e h = absurd (cc h)
    of (some l) e h = (l, e, h)

lib_name-none : (toml value : Value) → lib_name toml ≡ none → ¬ IsEntry "lib" "name" toml value
unfolding lib_name
lib_name-none toml value h (lib, e, k) = cc (rw (e, lib_name) at h, k)

-- Cargo.toml, with a version for the package, and a name for the library or else for the package
module _ (to_string : Value → String) (from_str : String → Option Value)
    (contents : Option String) where
  abbrev pub IsManifest : Value → Type 0
  IsManifest toml = (text : String) × (contents ≡ some text) × (from_str text ≡ some toml)

  abbrev pub HasVersion : (version : String) → Type 0
  HasVersion version =
      (toml value : Value) × IsManifest toml
      × IsEntry "package" "version" toml value
      × (as_str value ≡ some version)

  abbrev pub HasName : (name : String) → Type 0
  HasName name =
      (toml value : Value) × IsManifest toml
      × (to_string value ≡ name)
      × (IsEntry "lib" "name" toml value
          ⊎ ((other : Value) → ¬ IsEntry "lib" "name" toml other)
            × IsEntry "package" "name" toml value)

  parse_file_ok : (toml : Value) → parse_file contents from_str ≡ ok toml → IsManifest toml
  unfolding parse_file
  parse_file_ok toml h =
      let (text, e, k) = >>=-eq-ok (Outcome.ok_or no_file contents) _ h in
      (text, ok_or-eq-ok no_file contents text e, ok_or-eq-ok not_toml (from_str text) toml k)

  pub extract_cargo_toml_version-HasVersion :
      (version : String)
      → extract_cargo_toml_version from_str contents ≡ ok version
      → HasVersion version
  unfolding extract_cargo_toml_version string_of
  extract_cargo_toml_version-HasVersion version h =
      let (toml, e, k) = >>=-eq-ok (parse_file contents from_str) _ h in
      let (value, e', k') = >>=-eq-ok (entry_of "package" "version" toml) _ k in
      (
        toml,
        value,
        parse_file_ok toml e,
        entry_of_ok "package" "version" toml value e',
        ok_or-eq-ok not_a_string (as_str value) version k',
      )

  named_by :
      (name : String) (toml : Value) (lib : Option Value)
      → IsManifest toml
      → lib_name toml ≡ lib
      → (elim lib [
        | some found ↦ ok (to_string found)
        | none ↦ entry_of "package" "name" toml >>= λ found. ok (to_string found)
      ])
        ≡ ok name
      → HasName name
  named_by name toml (some value) parsed e h =
      (toml, value, parsed, ground arith, inl (lib_name-some toml value e))
  named_by name toml none parsed e h =
      let (value, e', k) = >>=-eq-ok (entry_of "package" "name" toml) _ h in
      (
        toml,
        value,
        parsed,
        ground arith,
        inr ((λ other. lib_name-none toml other e), entry_of_ok "package" "name" toml value e'),
      )

  pub extract_cargo_lib_or_project_name-HasName :
      (name : String)
      → extract_cargo_lib_or_project_name to_string from_str contents ≡ ok name
      → HasName name
  unfolding extract_cargo_lib_or_project_name
  extract_cargo_lib_or_project_name-HasName name h =
      let (toml, e, k) = >>=-eq-ok (parse_file contents from_str) _ h in
      named_by name toml (lib_name toml) (parse_file_ok toml e) refl k
