-- ===== src/Tests/Instances.antt =====
-- An instance of the crate `hex` and of the names that the derive gives, to run the model with.
use cargo_stylus.Common.{
  ℕ, zero, suc, ◌+◌, ◌-◌, ◌*◌, ◌/◌, ◌%◌, ◌<◌, String, ◌≡◌, refl, ap, Option, none, some, [], ◌∷◌,
  ◌==◌, ltb, if◌then◌else◌, arith,
}
use cargo_stylus.Common.Bytes.{Bytes, IsBytes}
use cargo_stylus.Trace.Names.{Names, spelling}
use cargo_stylus.Trace.Cursor.{Codec}
use Prim.Native.Char.{Char, code}

abbrev digit_of : ℕ → Char
digit_of n =
    if n == 0
    then "0"
    else if n == 1
    then "1"
    else if n == 2
    then "2"
    else if n == 3
    then "3"
    else if n == 4
    then "4"
    else if n == 5
    then "5"
    else if n == 6
    then "6"
    else if n == 7
    then "7"
    else if n == 8
    then "8"
    else if n == 9
    then "9"
    else if n == 10
    then "a"
    else if n == 11
    then "b"
    else if n == 12
    then "c"
    else if n == 13
    then "d"
    else if n == 14
    then "e"
    else "f"

abbrev digit_value : Char → Option ℕ
digit_value c =
    let n = code c in
    if ltb n 48
    then none
    else if ltb n 58
    then some (n - 48)
    else if ltb n 97
    then none
    else if ltb n 103
    then some (n - 87)
    else none

abbrev digit_value-digit_of : (d : ℕ) → d < 16 → digit_value (digit_of d) ≡ some d
digit_value-digit_of zero h = refl
digit_value-digit_of (suc zero) h = refl
digit_value-digit_of (suc (suc zero)) h = refl
digit_value-digit_of (suc (suc (suc zero))) h = refl
digit_value-digit_of (suc (suc (suc (suc zero)))) h = refl
digit_value-digit_of (suc (suc (suc (suc (suc zero))))) h = refl
digit_value-digit_of (suc (suc (suc (suc (suc (suc zero)))))) h = refl
digit_value-digit_of (suc (suc (suc (suc (suc (suc (suc zero))))))) h = refl
digit_value-digit_of (suc (suc (suc (suc (suc (suc (suc (suc zero)))))))) h = refl
digit_value-digit_of (suc (suc (suc (suc (suc (suc (suc (suc (suc zero))))))))) h = refl
digit_value-digit_of (suc (suc (suc (suc (suc (suc (suc (suc (suc (suc zero)))))))))) h = refl
digit_value-digit_of (suc (suc (suc (suc (suc (suc (suc (suc (suc (suc (suc zero))))))))))) h = refl
digit_value-digit_of (suc (suc (suc (suc (suc (suc (suc (suc (suc (suc (suc (suc zero))))))))))))
      h =
    refl
digit_value-digit_of
      (suc (suc (suc (suc (suc (suc (suc (suc (suc (suc (suc (suc (suc zero))))))))))))) h =
    refl
digit_value-digit_of
      (suc (suc (suc (suc (suc (suc (suc (suc (suc (suc (suc (suc (suc (suc zero)))))))))))))) h =
    refl
digit_value-digit_of
      (suc (suc (suc (suc (suc (suc (suc (suc (suc (suc (suc (suc (suc (suc (suc zero)))))))))))))))
      h =
    refl
digit_value-digit_of
      (suc
        (suc (suc (suc (suc (suc (suc (suc (suc (suc (suc (suc (suc (suc (suc (suc n))))))))))))))))
      h =
    absurd (omega arith)

abbrev byte_of : Option ℕ → Option ℕ → Option Bytes → Option Bytes
byte_of (some a) (some b) (some rest) = some ((a * 16 + b) ∷ rest)
byte_of _ _ _ = none

abbrev encode_hex : Bytes → String
encode_hex [] = ""
encode_hex (b ∷ bs) =
    String.◌∷◌ (digit_of (b / 16)) (String.◌∷◌ (digit_of (b % 16)) (encode_hex bs))

abbrev decode_hex : String → Option Bytes
decode_hex String.[] = some []
decode_hex (String.◌∷◌ a (String.◌∷◌ b rest)) =
    byte_of (digit_value a) (digit_value b) (decode_hex rest)
decode_hex _ = none

abbrev decode_hex-encode_hex : (b : Bytes) → IsBytes b → decode_hex (encode_hex b) ≡ some b
decode_hex-encode_hex [] h = refl
decode_hex-encode_hex (b ∷ bs) h =
    rw
      (
        digit_value-digit_of (b / 16) (omega (arith, h.0)),
        digit_value-digit_of (b % 16) (omega arith),
        decode_hex-encode_hex bs h.1,
      )
      (ap (λ x. some (x ∷ bs)) (omega arith))

abbrev pub hex : Codec
hex = record {
  encode = encode_hex;
  decode = decode_hex;
  from_utf8_lossy = λ b. "";
  decode-encode = decode_hex-encode_hex;
}

abbrev pub snake_case : Names
snake_case = record { name_of = spelling; name_of_lem = λ v h. refl }
