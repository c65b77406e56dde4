-- ===== src/Verify/Diagnosis.antt =====
-- What the verdicts mean.
use cargo_stylus.Common.{
  ℕ, ◌<◌, ◌^◌, ◌≡◌, ◌≢◌, ◌↔◌, refl, sym, ◌∙◌, ap, true, false, not, List, [], ◌∷◌, ◌++◌, length,
  take, drop, length-append, arith, if◌then◌else◌, ltb, ◌==◌, ==_iff, take-append, drop-append,
  Bool-cases, inl, inr,
}
use mathlib.Core.List.{append_assoc}
use cargo_stylus.Common.Outcome.{Outcome, ok}
use cargo_stylus.Common.Bytes.{
  Bytes, to_be_bytes, length-to_be_bytes, from_be_bytes, from_be_bytes-to_be_bytes, Fits-of_lt,
  bytes_eq, bytes_eq_iff, bytes_eq_apart,
}
use cargo_stylus.Rpc.{Failure}
use cargo_stylus.Deploy.Calldata.{
  contract_deployment_calldata, extract_contract_evm_deployment_prelude, extract_compressed_wasm,
}
use cargo_stylus.Verify.{
  Verdict, verified, prelude_mismatch, wasm_mismatch, report_mismatch, verify_create_deployment,
}

-- The init code is a prelude of 43 bytes, which depends on the code's length alone, and the code.
prelude_of : ℕ → Bytes
prelude_of n =
    0x7f ∷ (to_be_bytes 32 n ++ (0x80 ∷ 0x60 ∷ 43 ∷ 0x60 ∷ 0 ∷ 0x39 ∷ 0x60 ∷ 0 ∷ 0xf3 ∷ 0 ∷ []))

length-prelude_of : (n : ℕ) → length (prelude_of n) ≡ 43
unfolding prelude_of
length-prelude_of n = omega (
  arith,
  length-append (to_be_bytes 32 n) (0x80 ∷ 0x60 ∷ 43 ∷ 0x60 ∷ 0 ∷ 0x39 ∷ 0x60 ∷ 0 ∷ 0xf3 ∷ 0 ∷ []),
  length-to_be_bytes 32 n,
)

calldata_split :
    (code : Bytes) → contract_deployment_calldata code ≡ prelude_of (length code) ++ code
unfolding contract_deployment_calldata prelude_of
calldata_split code =
    ap (λ l. 0x7f ∷ l)
      (sym (
        append_assoc (to_be_bytes 32 (length code))
          (0x80 ∷ 0x60 ∷ 43 ∷ 0x60 ∷ 0 ∷ 0x39 ∷ 0x60 ∷ 0 ∷ 0xf3 ∷ 0 ∷ []) code))

prelude_apart : (n m : ℕ) → n < 256 ^ 32 → m < 256 ^ 32 → prelude_of n ≡ prelude_of m → n ≡ m
unfolding prelude_of
prelude_apart n m h k e =
    let t : List ℕ = 0x80 ∷ 0x60 ∷ 43 ∷ 0x60 ∷ 0 ∷ 0x39 ∷ 0x60 ∷ 0 ∷ 0xf3 ∷ 0 ∷ [] in
    let b : to_be_bytes 32 n ≡ to_be_bytes 32 m =
      sym (take-append 32 (to_be_bytes 32 n) t (length-to_be_bytes 32 n))
      ∙ ap (λ l. take 32 (drop 1 l)) e
      ∙ take-append 32 (to_be_bytes 32 m) t (length-to_be_bytes 32 m) in
    sym (from_be_bytes-to_be_bytes 32 n (Fits-of_lt 32 n h))
    ∙ ap from_be_bytes b
    ∙ from_be_bytes-to_be_bytes 32 m (Fits-of_lt 32 m k)

not_short : (n : ℕ) (code : Bytes) → ltb (length (prelude_of n ++ code)) 43 ≡ false
not_short n code = ground (arith, length-append (prelude_of n) code, length-prelude_of n)

-- Taking the init code apart gives the prelude, and the code.
prelude_found :
    (code : Bytes)
    → extract_contract_evm_deployment_prelude (contract_deployment_calldata code)
      ≡ ok (prelude_of (length code))
unfolding extract_contract_evm_deployment_prelude
prelude_found code =
    rw (calldata_split code, not_short (length code) code)
      (ap (λ b. ok b)
        (take-append 43 (prelude_of (length code)) code (length-prelude_of (length code))))

pub extract_compressed_wasm-contract_deployment_calldata :
    (code : Bytes) → extract_compressed_wasm (contract_deployment_calldata code) ≡ ok code
unfolding extract_compressed_wasm
extract_compressed_wasm-contract_deployment_calldata code =
    rw (calldata_split code, not_short (length code) code)
      (ap (λ b. ok b)
        (drop-append 43 (prelude_of (length code)) code (length-prelude_of (length code))))

report_mismatch-unverified :
    (a b c d : Outcome Failure Bytes) → report_mismatch a b c d ≢ ok verified
unfolding report_mismatch
report_mismatch-unverified a b c d h = ground arith

-- A creation is reported as verified exactly when its calldata is the init code of the local build.
pub verify_create_deployment_iff :
    (calldata code : Bytes)
    → (verify_create_deployment calldata (contract_deployment_calldata code) ≡ ok verified)
      ↔ (calldata ≡ contract_deployment_calldata code)
unfolding verify_create_deployment
verify_create_deployment_iff calldata code = (
  λ h. elim (Bool-cases (bytes_eq (contract_deployment_calldata code) calldata)) [
    | inl same ↦ sym ((bytes_eq_iff _ _).0 same)
    | inr other ↦ absurd (
        report_mismatch-unverified (extract_contract_evm_deployment_prelude calldata)
          (extract_contract_evm_deployment_prelude (contract_deployment_calldata code))
          (extract_compressed_wasm (contract_deployment_calldata code))
          (extract_compressed_wasm calldata) (rw other at h))
  ],
  λ e.
      let same : bytes_eq (contract_deployment_calldata code) calldata ≡ true =
        (bytes_eq_iff _ _).1 (sym e) in
      rw same refl,
)

abbrev pub diagnosis : Bytes → Bytes → Verdict
diagnosis code deployed =
    if length code == length deployed
    then wasm_mismatch (length code) (length deployed)
    else prelude_mismatch (length code) (length deployed)

calldata_apart :
    (code deployed : Bytes)
    → contract_deployment_calldata code ≡ contract_deployment_calldata deployed
    → code ≡ deployed
calldata_apart code deployed e =
    let o : ◌≡◌ {A = Outcome Failure Bytes} (ok code) (ok deployed) =
      sym (extract_compressed_wasm-contract_deployment_calldata code)
      ∙ ap extract_compressed_wasm e
      ∙ extract_compressed_wasm-contract_deployment_calldata deployed in
    cc o

same_report :
    (code deployed : Bytes)
    → length code < 256 ^ 32
    → length deployed < 256 ^ 32
    → ◌≡◌ {A = Outcome Failure Verdict}
        (ok (
          if not (bytes_eq (prelude_of (length deployed)) (prelude_of (length code)))
          then prelude_mismatch (length code) (length deployed)
          else wasm_mismatch (length code) (length deployed)))
        (ok (diagnosis code deployed))
same_report code deployed h k = elim (Bool-cases (length code == length deployed)) [
  | inl same ↦
      let e : length deployed ≡ length code =
        sym ((==_iff (length code) (length deployed)).0 same) in
      rw (same, (bytes_eq_iff _ _).1 (ap prelude_of e)) refl
  | inr other ↦
      let apart : bytes_eq (prelude_of (length deployed)) (prelude_of (length code)) ≡ false =
        bytes_eq_apart _ _ (λ e.
          cc ((==_iff (length code) (length deployed)).1 (sym (prelude_apart _ _ k h e)), other)) in
      rw (other, apart) refl
]

-- For a creation of other code, with both lengths below 256^32, the command does not fail: it
-- reports a mismatch, with both lengths, which is one of the prelude exactly when the lengths
-- differ.
pub verify_create_deployment-diagnosis :
    (code deployed : Bytes)
    → length code < 256 ^ 32
    → length deployed < 256 ^ 32
    → code ≢ deployed
    → verify_create_deployment
        (contract_deployment_calldata deployed)
        (contract_deployment_calldata code)
      ≡ ok (diagnosis code deployed)
unfolding verify_create_deployment report_mismatch
verify_create_deployment-diagnosis code deployed h k ne =
    let n = length code in
    let m = length deployed in
    let apart : bytes_eq (contract_deployment_calldata code) (contract_deployment_calldata deployed)
        ≡ false =
      bytes_eq_apart _ _ (λ e. ne (calldata_apart code deployed e)) in
    rw
      (
        apart,
        prelude_found code,
        prelude_found deployed,
        extract_compressed_wasm-contract_deployment_calldata code,
        extract_compressed_wasm-contract_deployment_calldata deployed,
      )
      (same_report code deployed h k)
