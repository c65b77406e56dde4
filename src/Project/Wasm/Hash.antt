-- ===== src/Project/Wasm/Hash.antt =====
-- The project's hash in the code of a contract (`compress_wasm`, main/src/project.rs).
use cargo_stylus.Common.{
  ℕ, zero, suc, ◌-◌, ◌≤◌, ◌≡◌, refl, ap, ◌∙◌, sym, String, Bool, true, false, Option, none, some,
  List, [], ◌∷◌, ◌++◌, length, take, drop, length-append, length-drop, leb, All, if◌then◌else◌,
  Bool-cases, inl, inr, arith,
}
use cargo_stylus.Common.Bytes.{Bytes}
use mathlib.Core.Path.{fun_ext}
use cargo_stylus.Common.Outcome.{Outcome, ok, err, panic, out_of_fuel, ◌>>=◌, >>=_assoc, ok_or_cong}
use cargo_stylus.Project.Wasm.{
  Payload, Payloads, custom_section, unknown_section, section, no_section, WasmError, not_read,
  not_printed, bad_wat, project_hash_section_name, slice, strip_loop, WasmTools,
  has_project_hash_section, add_custom_section, add_project_hash_to_wasm_file, strip_user_metadata,
  contract_code, compress_wasm,
}

drop-append_of_le : (n : ℕ) (xs ys : Bytes) → n ≤ length xs → drop n (xs ++ ys) ≡ drop n xs ++ ys
drop-append_of_le zero xs ys h = refl
drop-append_of_le (suc n) [] ys h = absurd (omega arith)
drop-append_of_le (suc n) (x ∷ xs) ys h = drop-append_of_le n xs ys (omega arith)

take-append_of_le : (n : ℕ) (xs ys : Bytes) → n ≤ length xs → take n (xs ++ ys) ≡ take n xs
take-append_of_le zero xs ys h = refl
take-append_of_le (suc n) [] ys h = absurd (omega arith)
take-append_of_le (suc n) (x ∷ xs) ys h = ap (λ l. x ∷ l) (take-append_of_le n xs ys (omega arith))

leb_of_le : (a b : ℕ) → a ≤ b → leb a b ≡ true
leb_of_le a b h = ground arith

slice-append :
    (start end : ℕ) (file tail : Bytes)
    → end ≤ length file
    → slice start end (file ++ tail) ≡ slice start end file
unfolding slice
slice-append start end file tail h = elim (Bool-cases (leb start end)) [
  | inl e ↦
      rw
        (
          e,
          leb_of_le end (length (file ++ tail)) (omega (arith, length-append file tail)),
          leb_of_le end (length file) h,
          drop-append_of_le start file tail (ground arith),
          take-append_of_le (end - start) (drop start file) tail
              (ground (arith, length-drop start file)),
        )
        refl
  | inr e ↦ rw e refl
]

-- A section that lies in the first `n` bytes of its file
abbrev pub IsInside : ℕ → Option Payload → Type 0
IsInside n (some (section id start end)) = end ≤ n
IsInside n _ = Unit {0}

strip_loop-append :
    (file tail : Bytes) (payloads : Payloads) (sections : List (ℕ × Bytes))
    → All (IsInside (length file)) payloads
    → strip_loop (file ++ tail) payloads sections ≡ strip_loop file payloads sections
unfolding strip_loop
strip_loop-append file tail [] sections h = refl
strip_loop-append file tail (none ∷ payloads) sections h = refl
strip_loop-append file tail (some (custom_section name bytes) ∷ payloads) sections h =
    strip_loop-append file tail payloads sections h.1
strip_loop-append file tail (some unknown_section ∷ payloads) sections h =
    strip_loop-append file tail payloads sections h.1
strip_loop-append file tail (some (section id start end) ∷ payloads) sections h =
    ap
      (λ r.
        r >>= λ data_slice. strip_loop (file ++ tail) payloads (sections ++ (id, data_slice) ∷ []))
      (slice-append start end file tail h.0)
    ∙ ap (λ (k : Bytes → Outcome WasmError (List (ℕ × Bytes))). slice start end file >>= k)
        (fun_ext λ data_slice.
          strip_loop-append file tail payloads (sections ++ (id, data_slice) ∷ []) h.1)
strip_loop-append file tail (some no_section ∷ payloads) sections h =
    strip_loop-append file tail payloads sections h.1

strip_loop_custom :
    (file : Bytes) (before after : Payloads) (name : String) (bytes : Bytes)
    (sections : List (ℕ × Bytes))
    → strip_loop file (before ++ some (custom_section name bytes) ∷ after) sections
      ≡ strip_loop file (before ++ after) sections
unfolding strip_loop
strip_loop_custom file [] after name bytes sections = refl
strip_loop_custom file (none ∷ before) after name bytes sections = refl
strip_loop_custom file (some (custom_section n b) ∷ before) after name bytes sections =
    strip_loop_custom file before after name bytes sections
strip_loop_custom file (some unknown_section ∷ before) after name bytes sections =
    strip_loop_custom file before after name bytes sections
strip_loop_custom file (some (section id start end) ∷ before) after name bytes sections =
    ap (λ (k : Bytes → Outcome WasmError (List (ℕ × Bytes))). slice start end file >>= k)
      (fun_ext λ data_slice.
        strip_loop_custom file before after name bytes (sections ++ (id, data_slice) ∷ []))
strip_loop_custom file (some no_section ∷ before) after name bytes sections =
    strip_loop_custom file before after name bytes sections

-- What writing a custom section does to a file, in the parser's eyes: bytes are put behind the
-- file, and the section stands among its payloads.
pub record IsAppended (T : WasmTools) (file bytes : Bytes) : Type 0 where
  pub before : Payloads
  pub after : Payloads
  pub tail : Bytes
  pub parsed : T.parse_all file ≡ before ++ after
  pub written : T.write_custom_section file project_hash_section_name bytes ≡ file ++ tail
  pub reparsed :
      T.parse_all (file ++ tail)
      ≡ before ++ some (custom_section project_hash_section_name bytes) ∷ after
  pub inside :
      All
        (IsInside (length file))
        (before ++ some (custom_section project_hash_section_name bytes) ∷ after)

module _ (T : WasmTools) where
  strip_user_metadata-add_custom_section :
      (file bytes : Bytes)
      → IsAppended T file bytes
      → strip_user_metadata T (add_custom_section T file bytes) ≡ strip_user_metadata T file
  unfolding strip_user_metadata add_custom_section
  strip_user_metadata-add_custom_section file bytes a =
      let custom = some (custom_section project_hash_section_name bytes) in
      let stripped =
        ap (λ (f : Bytes). strip_loop f (T.parse_all f) []) a.written
        ∙ ap (λ (p : Payloads). strip_loop (file ++ a.tail) p []) a.reparsed
        ∙ strip_loop-append file a.tail (a.before ++ custom ∷ a.after) [] a.inside
        ∙ strip_loop_custom file a.before a.after project_hash_section_name bytes []
        ∙ ap (λ (p : Payloads). strip_loop file p []) (sym a.parsed) in
      ap (λ (r : Outcome WasmError (List (ℕ × Bytes))). r >>= λ sections. ok (T.finish sections))
        stripped

  -- The stripped file, with whatever hash was added to it
  add_project_hash_stripped :
      (file bytes : Bytes)
      → IsAppended T file bytes
      → (add_project_hash_to_wasm_file T file bytes >>= strip_user_metadata T)
        ≡ (has_project_hash_section T file >>= λ _. strip_user_metadata T file)
  unfolding add_project_hash_to_wasm_file
  add_project_hash_stripped file bytes a =
      chosen (has_project_hash_section T file) (strip_user_metadata-add_custom_section file bytes a)
    where
      chosen :
          (r : Outcome WasmError Bool)
          → strip_user_metadata T (add_custom_section T file bytes) ≡ strip_user_metadata T file
          → (r
              >>= (λ exists. if exists then ok file else ok (add_custom_section T file bytes))
              >>= strip_user_metadata T)
            ≡ (r >>= λ _. strip_user_metadata T file)
      chosen (ok true) e = refl
      chosen (ok false) e = e
      chosen (err e') e = refl
      chosen panic e = refl
      chosen out_of_fuel e = refl

  -- If the writer of custom sections puts one more of them into a file, behind its bytes and among
  -- its payloads, the wasm and the contract's code, or the error, do not depend on the project's
  -- hash.
  pub compress_wasm_hash :
      (contents : Option Bytes) (project_hash other_hash : Bytes)
      → ((wat file bytes : Bytes) → T.wat2wasm wat ≡ some file → IsAppended T file bytes)
      → compress_wasm T contents project_hash ≡ compress_wasm T contents other_hash
  unfolding compress_wasm
  compress_wasm_hash contents project_hash other_hash appended =
      ok_or_cong not_read contents _ _ λ wasm _.
        ok_or_cong not_printed (T.print_bytes wasm) _ _ λ wat _.
          ok_or_cong bad_wat (T.wat2wasm wat) _ _ λ file e.
            sym (
              >>=_assoc (add_project_hash_to_wasm_file T file project_hash) (strip_user_metadata T)
                _)
            ∙ ap (λ r. r >>= contract_code T)
                (add_project_hash_stripped file project_hash (appended wat file project_hash e)
                  ∙ sym
                      (add_project_hash_stripped file other_hash (appended wat file other_hash e)))
            ∙ >>=_assoc (add_project_hash_to_wasm_file T file other_hash) (strip_user_metadata T)
                (contract_code T)
