-- ===== src/Tests/Keys.antt =====
-- A private key in a file, with whitespace round it.
use Prim.Native.String.{◌++◌ as ◌<>◌}
use cargo_stylus.Common.{◌≡◌, refl, inr, true, none, some, [], ◌∷◌, arith}
use cargo_stylus.Common.Text.{add_0x}
use cargo_stylus.Common.Bytes.{Bytes}
use cargo_stylus.Common.Outcome.{ok, panic}
use cargo_stylus.Cli.Config.{AuthOpts}
use cargo_stylus.Wallet.{is_whitespace, Signers, decode0x, alloy_wallet}
use cargo_stylus.Wallet.Keys.{is_blank, is_solid, decode0x-add_0x, alloy_wallet_panics}
use cargo_stylus.Tests.Instances.{hex}

abbrev signers : Signers
signers = record {
  Signer = Bytes;
  decode = hex.decode;
  from_bytes = λ key. some key;
  decrypt_keystore = λ path password. none;
  read_to_string = λ path. some " 0x0102\n";
}

abbrev auth : AuthOpts
auth = record {
  private_key_path = some "key";
  private_key = none;
  keystore_path = none;
  keystore_password_path = none;
}

blank_space : is_blank " " ≡ true
unfolding is_whitespace
blank_space = refl

blank_line : is_blank "\n" ≡ true
unfolding is_whitespace
blank_line = refl

solid_digits : is_solid "0102" ≡ true
unfolding is_whitespace
solid_digits = refl

decode0x_example : decode0x signers (" " <> (add_0x "0102" <> "\n")) ≡ ok (1 ∷ 2 ∷ [])
decode0x_example = decode0x-add_0x signers " " "\n" "0102" blank_space blank_line solid_digits

panics_example : alloy_wallet signers auth 1 ≡ panic
panics_example =
    alloy_wallet_panics signers auth 1 " 0x0102\n" (1 ∷ 2 ∷ []) decode0x_example
      (λ h. absurd (omega arith)) (inr (refl, ("key", refl, refl)))
