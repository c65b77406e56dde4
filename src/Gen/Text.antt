-- ===== src/Gen/Text.antt =====
-- The lines of the C bindings (main/src/gen.rs).
use Prim.Native.String.{◌++◌ as ◌<>◌, compare}
use Prim.Native.Nat.{Ordering}
use cargo_stylus.Common.{
  ℕ, zero, suc, ◌/◌, ◌%◌, String, Bool, true, false, List, [], ◌∷◌, if◌then◌else◌, ltb, ◌==◌,
}
use cargo_stylus.Common.Bytes.{Bytes}
use cargo_stylus.Cli.Words.{join}
use cargo_stylus.Cli.Display.{digit, show_u64}

-- `StateMutability`
pub data Mutability : Type 0 where
  pure view nonpayable payable : Mutability

-- What is used of alloy's `Function`; the selector is its four bytes as a big-endian number.
pub record Function : Type 0 where
  pub name : String
  pub signature : String
  pub selector : ℕ
  pub state_mutability : Mutability

unfoldable pub hex_digit : ℕ → String
unfolding digit
hex_digit d =
    if ltb d 10
    then digit d
    else if d == 10
    then "a"
    else if d == 11
    then "b"
    else if d == 12
    then "c"
    else if d == 13
    then "d"
    else if d == 14
    then "e"
    else "f"

-- A number in hex, padded with zeros to so many digits, which it fits
unfoldable pub hex_padded : ℕ → ℕ → String
unfolding hex_digit
hex_padded zero n = ""
hex_padded (suc width) n = hex_padded width (n / 16) <> hex_digit (n % 16)

unfoldable pub hex_bytes : Bytes → List String
unfolding hex_padded
hex_bytes [] = []
hex_bytes (byte ∷ bytes) = ("0x" <> hex_padded 2 byte) ∷ hex_bytes bytes

unfoldable pub c_bytearray_initializer : Bytes → String
unfolding hex_bytes join
c_bytearray_initializer bytes = "{" <> (join ", " (hex_bytes bytes) <> "}")

unfoldable pub hdr_params : Mutability → String
hdr_params pure = "(uint8_t *input, size_t len)"
hdr_params view = "(const void *storage, uint8_t *input, size_t len)"
hdr_params nonpayable = "(void *storage, uint8_t *input, size_t len)"
hdr_params payable = "(void *storage, uint8_t *input, size_t len, bebi32 value)"

unfoldable pub call_params : Mutability → String
call_params pure = "(input, len)"
call_params view = "(NULL, input, len)"
call_params nonpayable = "(NULL, input, len)"
call_params payable = "(NULL, input, len, value)"

unfoldable pub is_payable : Mutability → Bool
is_payable payable = true
is_payable _ = false

-- The C name of the overload at an index
unfoldable pub c_name : String → ℕ → String
unfolding show_u64
c_name simple_name zero = simple_name
c_name simple_name (suc n) = simple_name <> ("_" <> show_u64 (suc n))

abbrev line : String → String
line text = text <> "\n"

unfoldable pub header_lines : String → Function → String
unfolding hex_padded hdr_params
header_lines name overload =
    line (
      "#define SELECTOR_"
      <> (name <> (" 0x" <> (hex_padded 8 overload.selector <> (" // " <> overload.signature)))))
    <> line (
        "ArbResult "
        <> (name <> (hdr_params overload.state_mutability <> ("; // " <> overload.signature))))

-- A function that takes no value reverts if there is one.
unfoldable pub router_lines : String → Function → String
unfolding call_params is_payable
router_lines name overload =
    line ("    if (selector==SELECTOR_" <> (name <> ") {"))
    <> ((if is_payable overload.state_mutability
          then ""
          else line "        if (!bebi32_is_zero(value)) revert();")
        <> line
            ("        return " <> (name <> (call_params overload.state_mutability <> ";\n    }"))))

-- A stable sort by the signature
unfoldable pub insert_by_signature : Function → List Function → List Function
insert_by_signature f [] = f ∷ []
insert_by_signature f (g ∷ fs) =
    let rest = insert_by_signature f fs in
    elim (compare f.signature g.signature) [ Ordering.gt ↦ g ∷ rest | _ ↦ f ∷ g ∷ fs ]

unfoldable pub sort_by_signature : List Function → List Function
unfolding insert_by_signature
sort_by_signature [] = []
sort_by_signature (f ∷ fs) = insert_by_signature f (sort_by_signature fs)

-- The texts of the overloads from an index on
unfoldable pub overloads_of :
    (lines : String → Function → String) → String → ℕ → List Function → String
unfolding c_name
overloads_of lines simple_name index [] = ""
overloads_of lines simple_name index (overload ∷ overloads) =
    lines (c_name simple_name index) overload
    <> overloads_of lines simple_name (suc index) overloads

unfoldable pub methods_text :
    (lines : String → Function → String) → List (String × List Function) → String
unfolding overloads_of sort_by_signature
methods_text lines [] = ""
methods_text lines ((simple_name, overloads) ∷ methods) =
    overloads_of lines simple_name 0 (sort_by_signature overloads) <> methods_text lines methods

unfoldable pub header_of : List (String × List Function) → String
unfolding methods_text header_lines
header_of methods = methods_text header_lines methods

unfoldable pub router_of : List (String × List Function) → String
unfolding methods_text router_lines
router_of methods = methods_text router_lines methods

unfoldable pub header_file : String → String → String
header_file uniq body =
    " // autogenerated by cargo-stylus\n#ifndef "
    <> (uniq
        <> ("\n#define "
            <> (uniq
                <> ("\n\n#include <stylus_types.h>\n#include <bebi.h>\n\n#ifdef __cplusplus\nextern \"C\" {\n#endif\n\nArbResult default_func(void *storage, uint8_t *input, size_t len, bebi32 value);\n\n"
                    <> (body
                        <> ("\n\n#ifdef __cplusplus\n}\n#endif\n\n#endif // "
                            <> (uniq <> "\n")))))))

unfoldable pub router_file : String → String → String
router_file contract body =
    " // autogenerated by cargo-stylus\n\n#include \""
    <> (contract
        <> (".h\"\n#include <stylus_types.h>\n#include <stylus_entry.h>\n#include <bebi.h>\n\n\nArbResult "
            <> (contract
                <> ("_entry(uint8_t *input, size_t len) {\n    bebi32 value;\n    msg_value(value);\n    if (len < 4) {\n        return default_func(NULL, input, len, value);\n    }\n    uint32_t selector = bebi_get_u32(input, 0);\n    input +=4;\n    len -=4;\n"
                    <> (body
                        <> ("\n    input -=4;\n    len +=4;\n    return default_func(NULL, input, len, value);\n}\n\nENTRYPOINT("
                            <> (contract <> "_entry)\n")))))))
