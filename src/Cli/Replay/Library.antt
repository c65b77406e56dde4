-- ===== src/Cli/Replay/Library.antt =====
-- Which library a replay loads (`find_shared_library`, main/src/main.rs).
use cargo_stylus.Common.Occurs.{Occurs, contains_iff}
use cargo_stylus.Common.{
  ◌≡◌, refl, ◌↔◌, ap, ◌++◌, All, Bool, true, false, String, Option, none, some, List, [], ◌∷◌,
  Bool-cases, inl, inr, if◌then◌else◌, arith,
}
use cargo_stylus.Common.Files.{Entry, files_in}
use cargo_stylus.Common.Outcome
use cargo_stylus.Common.Outcome.{Outcome, ok, err, ◌>>=◌}
use cargo_stylus.Cli.Replay.{
  ReplayError, more_than_one_so, no_so, name_contains, find_loop, find_shared_library,
}

-- The files whose names contain the extension
unfoldable pub matching : String → List Entry → List Entry
matching extension [] = []
matching extension (e ∷ entries) =
    let rest = matching extension entries in
    if name_contains extension e.file_name then e ∷ rest else rest

abbrev pub judge : List Entry → Outcome ReplayError Entry
judge [] = err no_so
judge (e ∷ []) = ok e
judge (e ∷ f ∷ rest) = err more_than_one_so

abbrev judge_behind : Option Entry → List Entry → Outcome ReplayError Entry
judge_behind none found = judge found
judge_behind (some e) found = judge (e ∷ found)

find_loop-judge :
    (extension : String) (file : Option Entry) (entries : List Entry)
    → (find_loop extension file entries >>= λ found. Outcome.ok_or no_so found)
      ≡ judge_behind file (matching extension entries)
unfolding find_loop matching
find_loop-judge extension none [] = refl
find_loop-judge extension (some e) [] = refl
find_loop-judge extension none (entry ∷ entries) =
    elim (Bool-cases (name_contains extension entry.file_name)) [
      | inl h ↦ rw (h, find_loop) (find_loop-judge extension (some entry) entries)
      | inr h ↦ rw (h, find_loop) (find_loop-judge extension none entries)
    ]
find_loop-judge extension (some e) (entry ∷ entries) =
    elim (Bool-cases (name_contains extension entry.file_name)) [
      | inl h ↦ rw (h, find_loop) refl
      | inr h ↦ rw (h, find_loop) (find_loop-judge extension (some e) entries)
    ]

find_shared_library-judge :
    (extension : String) (entries : List (Option Entry))
    → find_shared_library (some entries) extension ≡ judge (matching extension (files_in entries))
unfolding find_shared_library
find_shared_library-judge extension entries = find_loop-judge extension none (files_in entries)

judge_iff : (found : List Entry) (e : Entry) → (judge found ≡ ok e) ↔ (found ≡ e ∷ [])
judge_iff [] e = ((λ h. absurd (ground arith)), (λ h. absurd (ground arith)))
judge_iff (f ∷ []) e = ((λ h. ap (λ x. x ∷ []) (cc)), (λ h. ground arith))
judge_iff (f ∷ g ∷ rest) e = ((λ h. absurd (ground arith)), (λ h. absurd (ground arith)))

-- In a directory that can be read a library is found exactly when it is the only file whose name
-- contains the extension.
pub find_shared_library_iff :
    (extension : String) (entries : List (Option Entry)) (library : Entry)
    → (find_shared_library (some entries) extension ≡ ok library)
      ↔ (matching extension (files_in entries) ≡ library ∷ [])
find_shared_library_iff extension entries library =
    rw (find_shared_library-judge extension entries)
      (judge_iff (matching extension (files_in entries)) library)

-- The extension stands in the file's name.
abbrev pub HasExtension : (extension : String) → Entry → Type 0
HasExtension extension e = (name : String) × (e.file_name ≡ some name) × Occurs extension name

-- The only file with the extension
pub record IsOnly (extension : String) (files : List Entry) (library : Entry) : Type 0 where
  pub before : List Entry
  pub after : List Entry
  pub split : files ≡ before ++ library ∷ after
  pub has : HasExtension extension library
  pub lacks_before : All (λ (f : Entry). ¬ HasExtension extension f) before
  pub lacks_after : All (λ (f : Entry). ¬ HasExtension extension f) after

name_contains-HasExtension :
    (extension : String) (is_file : Bool) (file_name : Option String)
    → name_contains extension file_name ≡ true
    → HasExtension extension (record { file_name = file_name; is_file = is_file })
unfolding name_contains
name_contains-HasExtension extension is_file none h = absurd (cc h)
name_contains-HasExtension extension is_file (some name) h =
    (name, refl, (contains_iff name extension).0 h)

not-HasExtension :
    (extension : String) (e : Entry)
    → name_contains extension e.file_name ≡ false
    → ¬ HasExtension extension e
unfolding name_contains
not-HasExtension extension e h (name, is, occurs) =
    cc (ap (name_contains extension) is, (contains_iff name extension).1 occurs, h)

matching_empty :
    (extension : String) (files : List Entry)
    → matching extension files ≡ []
    → All (λ (f : Entry). ¬ HasExtension extension f) files
unfolding matching
matching_empty extension [] h = tt
matching_empty extension (f ∷ files) h = elim (Bool-cases (name_contains extension f.file_name)) [
  | inl m ↦ absurd (cc (rw m at h))
  | inr m ↦ (not-HasExtension extension f m, matching_empty extension files (rw m at h))
]

pub matching-IsOnly :
    (extension : String) (files : List Entry) (library : Entry)
    → matching extension files ≡ library ∷ []
    → IsOnly extension files library
unfolding matching
matching-IsOnly extension [] library h = absurd (cc h)
matching-IsOnly extension (f ∷ files) library h =
    elim (Bool-cases (name_contains extension f.file_name)) [
      | inl m ↦
          let here : ◌≡◌ {A = List Entry} (f ∷ matching extension files) (library ∷ []) =
            rw m at h in
          let same : f ≡ library = cc here in
          record {
            before = [];
            after = files;
            split = ap (λ x. x ∷ files) same;
            has = rw same at (name_contains-HasExtension extension f.is_file f.file_name m);
            lacks_before = tt;
            lacks_after = matching_empty extension files (cc here);
          }
      | inr m ↦
          let i = matching-IsOnly extension files library (rw m at h) in
          record {
            before = f ∷ i.before;
            after = i.after;
            split = ap (λ l. f ∷ l) i.split;
            has = i.has;
            lacks_before = (not-HasExtension extension f m, i.lacks_before);
            lacks_after = i.lacks_after;
          }
    ]
