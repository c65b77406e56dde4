-- ===== src/Wallet.antt =====
-- The key that transactions are signed with (main/src/wallet.rs, main/src/util/text.rs).
pub mod Keys
use Prim.Native.Char.{code}
use cargo_stylus.Common.{
  ℕ, String, Bool, true, false, ◌||◌, ◌&&◌, Option, none, some, List, [], ◌∷◌, length, ltb, leb,
  ◌==◌, if◌then◌else◌,
}
use cargo_stylus.Common.Text.{strip_0x}
use cargo_stylus.Common.Bytes.{Bytes}
use cargo_stylus.Common.Outcome
use cargo_stylus.Common.Outcome.{Outcome, ok, err, panic, ◌>>=◌}
use cargo_stylus.Cli.Config.{AuthOpts}
use cargo_stylus.Cli.Words.{is_empty}

-- `char::is_whitespace`: the code points with the property White_Space
unfoldable pub is_whitespace : ℕ → Bool
is_whitespace c =
    leb 9 c && leb c 13
    || c == 32
    || c == 0x85
    || c == 0xa0
    || c == 0x1680
    || leb 0x2000 c && leb c 0x200a
    || c == 0x2028
    || c == 0x2029
    || c == 0x202f
    || c == 0x205f
    || c == 0x3000

unfoldable pub trim_start : String → String
trim_start String.[] = String.[]
trim_start (String.◌∷◌ c s) =
    let rest = trim_start s in if is_whitespace (code c) then rest else String.◌∷◌ c s

unfoldable pub trim_end : String → String
trim_end String.[] = String.[]
trim_end (String.◌∷◌ c s) =
    let rest = trim_end s in
    if is_empty rest && is_whitespace (code c) then String.[] else String.◌∷◌ c rest

-- `text.trim()`
unfoldable pub trim : String → String
unfolding trim_start trim_end
trim s = trim_end (trim_start s)

-- `text.strip_prefix("0x").unwrap_or(text)`
unfoldable pub without_0x : String → String
unfolding strip_0x
without_0x text = elim (strip_0x text) [ none ↦ text | some rest ↦ rest ]

-- The wallet's errors
pub data WalletError : Type 0 where
  empty_private_key not_hex bad_private_key no_key_file no_keystore no_password_file : WalletError
  not_decrypted : WalletError

-- The crate `hex`, alloy's signers, and the files: `from_bytes` takes the 32 bytes of a key, and
-- `decrypt_keystore` a path and a password.
pub record Signers : Type 1 where
  pub Signer : Type 0
  pub decode : String → Option Bytes
  pub from_bytes : Bytes → Option Signer
  pub decrypt_keystore : String → String → Option Signer
  pub read_to_string : String → Option String

-- A signer for a chain
abbrev pub EthereumWallet : Type 0 → Type 0
EthereumWallet Signer = Signer × ℕ

module _ (S : Signers) where
  open S use {Signer, decode, from_bytes, decrypt_keystore, read_to_string}

  unfoldable pub decode0x : String → Outcome WalletError Bytes
  unfolding trim without_0x
  decode0x text = Outcome.ok_or not_hex (decode (without_0x (trim text)))

  -- `FixedBytes::<32>::from_slice`, which panics at another length.
  unfoldable pub from_slice : Bytes → Outcome WalletError Bytes
  from_slice bytes = if length bytes == 32 then ok bytes else panic

  -- `PrivateKeySigner::from_bytes(…)?.with_chain_id(…)`, of a key as text
  unfoldable pub wallet_of_key : ℕ → String → Outcome WalletError (EthereumWallet Signer)
  unfolding decode0x from_slice
  wallet_of_key chain_id key = decode0x key >>= λ bytes. from_slice bytes >>= λ priv_key_bytes.
      Outcome.ok_or bad_private_key (from_bytes priv_key_bytes) >>= λ signer. ok (signer, chain_id)

  unfoldable pub read_password : Option String → Outcome WalletError String
  read_password none = ok String.[]
  read_password (some path) = Outcome.ok_or no_password_file (read_to_string path)

  unfoldable pub wallet_of_keystore :
      ℕ → Option String → Option String → Outcome WalletError (EthereumWallet Signer)
  unfolding read_password
  wallet_of_keystore chain_id keystore_path keystore_password_path =
      Outcome.ok_or no_keystore keystore_path >>= λ keystore.
      read_password keystore_password_path >>= λ password.
      Outcome.ok_or not_decrypted (decrypt_keystore keystore password) >>= λ signer.
      ok (signer, chain_id)

  -- Without a key on the command line
  unfoldable pub wallet_of_files :
      ℕ
      → Option String
      → Option String
      → Option String
      → Outcome WalletError (EthereumWallet Signer)
  unfolding wallet_of_key wallet_of_keystore
  wallet_of_files chain_id (some file) keystore_path keystore_password_path =
      Outcome.ok_or no_key_file (read_to_string file) >>= λ key. wallet_of_key chain_id key
  wallet_of_files chain_id none keystore_path keystore_password_path =
      wallet_of_keystore chain_id keystore_path keystore_password_path

  unfoldable pub wallet_of_options :
      ℕ → Option String → AuthOpts → Outcome WalletError (EthereumWallet Signer)
  unfolding wallet_of_key wallet_of_files
  wallet_of_options chain_id (some key) auth =
      if is_empty key then err empty_private_key else wallet_of_key chain_id key
  wallet_of_options chain_id none auth =
      wallet_of_files chain_id auth.private_key_path auth.keystore_path auth.keystore_password_path

  unfoldable pub alloy_wallet : AuthOpts → ℕ → Outcome WalletError (EthereumWallet Signer)
  unfolding wallet_of_options
  alloy_wallet auth chain_id = wallet_of_options chain_id auth.private_key auth
