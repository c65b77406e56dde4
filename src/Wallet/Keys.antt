-- ===== src/Wallet/Keys.antt =====
-- How a key is written (main/src/wallet.rs, main/src/util/text.rs).
use Prim.Native.Char.{code}
use Prim.Native.String.{◌++◌ as ◌<>◌}
use text.Mathlib.TextLemmas.{nil-append, cons-append}
use cargo_stylus.Common.{
  ℕ, ◌≡◌, refl, ap, ◌∙◌, ◌≢◌, ◌⊎◌, String, Bool, true, false, ◌&&◌, &&-eq-true, none, some, length,
  if◌then◌else◌, inl, inr, arith,
}
use cargo_stylus.Common.Text.{strip_0x, add_0x}
use cargo_stylus.Common.Bytes.{Bytes}
use cargo_stylus.Common.Outcome
use cargo_stylus.Common.Outcome.{Outcome, ok, err, panic, ◌>>=◌}
use cargo_stylus.Cli.Config.{AuthOpts}
use cargo_stylus.Cli.Words.{is_empty}
use cargo_stylus.Wallet.{
  is_whitespace, trim_start, trim_end, trim, without_0x, WalletError, Signers, decode0x, from_slice,
  wallet_of_key, wallet_of_files, wallet_of_options, alloy_wallet,
}

-- Whitespace alone
abbrev pub is_blank : String → Bool
is_blank String.[] = true
is_blank (String.◌∷◌ c s) = is_whitespace (code c) && is_blank s

-- No whitespace
abbrev pub is_solid : String → Bool
is_solid String.[] = true
is_solid (String.◌∷◌ c s) = (if is_whitespace (code c) then false else true) && is_solid s

trim_end_blank : (s : String) → is_blank s ≡ true → trim_end s ≡ String.[]
unfolding trim_end
trim_end_blank String.[] h = refl
trim_end_blank (String.◌∷◌ c s) h =
    let (a, b) = &&-eq-true (is_whitespace (code c)) (is_blank s) h in
    rw (trim_end_blank s b, a) refl

unchanged : (b : Bool) (s : String) → (if b && false then String.[] else s) ≡ s
unchanged true s = refl
unchanged false s = refl

trim_end-append : (s t : String) → is_solid s ≡ true → is_blank t ≡ true → trim_end (s <> t) ≡ s
unfolding trim_end
trim_end-append String.[] t h k = rw nil-append (trim_end_blank t k)
trim_end-append (String.◌∷◌ c s) t h k =
    let (a, b) = &&-eq-true (if is_whitespace (code c) then false else true) (is_solid s) h in
    let solid : is_whitespace (code c) ≡ false = ground arith in
    rw (cons-append, trim_end-append s t b k, solid) (unchanged (is_empty s) _)

trim_start_blank : (s t : String) → is_blank s ≡ true → trim_start (s <> t) ≡ trim_start t
unfolding trim_start
trim_start_blank String.[] t h = ap trim_start (nil-append t)
trim_start_blank (String.◌∷◌ c s) t h =
    let (a, b) = &&-eq-true (is_whitespace (code c)) (is_blank s) h in
    rw (cons-append, a) (trim_start_blank s t b)

-- Text that begins with `0x`
trim_start-add_0x : (s t : String) → trim_start (add_0x s <> t) ≡ add_0x s <> t
unfolding trim_start is_whitespace
trim_start-add_0x s t = rw (cons-append, cons-append) refl

trim-add_0x :
    (before after digits : String)
    → is_blank before ≡ true
    → is_blank after ≡ true
    → is_solid digits ≡ true
    → trim (before <> (add_0x digits <> after)) ≡ add_0x digits
unfolding trim is_whitespace
trim-add_0x before after digits b a d =
    ap trim_end
      (trim_start_blank before (add_0x digits <> after) b ∙ trim_start-add_0x digits after)
    ∙ trim_end-append (add_0x digits) after d a

trim_start_solid :
    (s t : String) → is_solid s ≡ true → is_empty s ≡ false → trim_start (s <> t) ≡ s <> t
unfolding trim_start
trim_start_solid String.[] t h n = absurd (cc)
trim_start_solid (String.◌∷◌ c s) t h n =
    let (a, b) = &&-eq-true (if is_whitespace (code c) then false else true) (is_solid s) h in
    let solid : is_whitespace (code c) ≡ false = ground arith in rw (cons-append, solid) refl

-- Whitespace round a text without any
pub trim_padded :
    (before after s : String)
    → is_blank before ≡ true
    → is_blank after ≡ true
    → is_solid s ≡ true
    → is_empty s ≡ false
    → trim (before <> (s <> after)) ≡ s
unfolding trim
trim_padded before after s b a h n =
    ap trim_end (trim_start_blank before (s <> after) b ∙ trim_start_solid s after h n)
    ∙ trim_end-append s after h a

module _ (S : Signers) where
  -- A key that is written as digits without whitespace behind `0x`, with whitespace round it, is
  -- what these digits decode to, or an error if they do not.
  pub decode0x-add_0x :
      (before after digits : String)
      → is_blank before ≡ true
      → is_blank after ≡ true
      → is_solid digits ≡ true
      → decode0x S (before <> (add_0x digits <> after))
        ≡ Outcome.ok_or WalletError.not_hex (S.decode digits)
  unfolding decode0x without_0x strip_0x
  decode0x-add_0x before after digits b a d = rw (trim-add_0x before after digits b a d) refl

  from_slice_short : (bytes : Bytes) → length bytes ≢ 32 → from_slice S bytes ≡ panic
  unfolding from_slice
  from_slice_short bytes n = ground arith

  wallet_of_key_panics :
      (chain_id : ℕ) (key : String) (bytes : Bytes)
      → decode0x S key ≡ ok bytes
      → length bytes ≢ 32
      → wallet_of_key S chain_id key ≡ panic
  unfolding wallet_of_key from_slice
  wallet_of_key_panics chain_id key bytes e n = rw (e, from_slice_short bytes n) refl

  -- A key in hex of another length than 32 bytes, on the command line or in the key file, ends the
  -- command in a panic.
  pub alloy_wallet_panics :
      (auth : AuthOpts) (chain_id : ℕ) (key : String) (bytes : Bytes)
      → decode0x S key ≡ ok bytes
      → length bytes ≢ 32
      → (auth.private_key ≡ some key) × (is_empty key ≡ false)
        ⊎ (auth.private_key ≡ none)
          × ((file : String) × (auth.private_key_path ≡ some file)
              × (S.read_to_string file ≡ some key))
      → alloy_wallet S auth chain_id ≡ panic
  unfolding alloy_wallet wallet_of_options wallet_of_files
  alloy_wallet_panics auth chain_id key bytes e n (inl (k, full)) =
      ap (λ o. wallet_of_options S chain_id o auth) k
      ∙ rw full (wallet_of_key_panics chain_id key bytes e n)
  alloy_wallet_panics auth chain_id key bytes e n (inr (k, (file, p, r))) =
      ap (λ o. wallet_of_options S chain_id o auth) k
      ∙ ap (λ o. wallet_of_files S chain_id o auth.keystore_path auth.keystore_password_path) p
      ∙ rw r (wallet_of_key_panics chain_id key bytes e n)
