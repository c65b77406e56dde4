-- ===== src/Gen/Storage.antt =====
-- The lines for the storage of a contract (main/src/gen.rs).
use Prim.Native.Char.{code}
use Prim.Native.String.{◌++◌ as ◌<>◌}
use cargo_stylus.Common.{
  ℕ, ◌+◌, ◌-◌, ◌*◌, ◌^◌, String, ◌&&◌, Option, none, some, ◌++◌, replicate, if◌then◌else◌, ltb, leb,
  ◌==◌,
}
use cargo_stylus.Common.Text.{str_eq, starts_with, ends_with}
use cargo_stylus.Common.Bytes.{Bytes, to_be_bytes}
use cargo_stylus.Cli.Display.{show_u64}
use cargo_stylus.Trace.Json.{
  Value, Values, Members, object, array, string, number, nil, cons, end, member,
}
use cargo_stylus.Gen.Text.{c_bytearray_initializer}

-- `object.get(name)`
unfoldable pub get : String → Members → Option Value
get name end = none
get name (member key value rest) =
    let more = get name rest in if str_eq key name then some value else more

-- The digits of a number, read behind those before them
unfoldable pub parse_digits : String → ℕ → Option ℕ
parse_digits String.[] n = some n
parse_digits (String.◌∷◌ c s) n =
    let rest = parse_digits s (n * 10 + (code c - 48)) in
    if leb 48 (code c) && leb (code c) 57 then rest else none

-- Digits, at least one
unfoldable pub parse_number : String → Option ℕ
unfolding parse_digits
parse_number String.[] = none
parse_number s = parse_digits s 0

abbrev check_u64 : Option ℕ → Option ℕ
check_u64 none = none
check_u64 (some n) = if ltb n (2 ^ 64) then some n else none

-- `slot.parse::<u64>()`, which takes a sign `+`.
unfoldable pub parse_u64 : String → Option ℕ
unfolding parse_number
parse_u64 String.[] = none
parse_u64 (String.◌∷◌ c s) =
    if code c == 43 then check_u64 (parse_number s) else check_u64 (parse_number (String.◌∷◌ c s))

unfoldable pub slot_buf : ℕ → Bytes
slot_buf slot = replicate 24 0 ++ to_be_bytes 8 slot

-- What a value of the storage has to have: a text, and an offset from 0 to 32. `as_i64` of a
-- number is in this range exactly when `as_u64` is.
abbrev pub text_of : Option Value → Option String
text_of (some (string s)) = some s
text_of _ = none

abbrev pub offset_of : Option Value → Option ℕ
offset_of (some (number (some n))) = if leb n 32 then some (32 - n) else none
offset_of _ = none

-- The lines for a label, by its type
unfoldable pub lines_of :
    (Bytes → Bytes) → (label : String) → (slot : ℕ) → (val_type : String) → (offset : ℕ) → String
unfolding c_bytearray_initializer show_u64 slot_buf ends_with
lines_of keccak256 label slot val_type offset =
    let end = " // " <> (val_type <> "\n") in
    "#define STORAGE_SLOT_"
    <> (label
        <> (" "
            <> (c_bytearray_initializer (slot_buf slot)
                <> (end
                    <> (if starts_with val_type "t_array("
                        then (if ends_with val_type ")dyn_storage"
                            then "#define STORAGE_BASE_"
                              <> (label
                                  <> (" "
                                      <> (c_bytearray_initializer (keccak256 (slot_buf slot))
                                          <> end)))
                            else "")
                        else if starts_with val_type "t_mapping"
                        then ""
                        else "#define STORAGE_END_OFFSET_"
                          <> (label <> (" " <> (show_u64 offset <> end))))))))

abbrev all_of : (Bytes → Bytes) → Option String → Option ℕ → Option String → Option ℕ → String
all_of keccak256 (some label) (some slot) (some val_type) (some offset) =
    lines_of keccak256 label slot val_type offset
all_of keccak256 _ _ _ _ = ""

abbrev slot_of : Option String → Option ℕ
slot_of none = none
slot_of (some slot) = parse_u64 slot

-- A value that has not all of these is passed over.
unfoldable pub value_lines : (Bytes → Bytes) → Value → String
unfolding get parse_u64 lines_of
value_lines keccak256 (object storage) =
    all_of keccak256 (text_of (get "label" storage)) (slot_of (text_of (get "slot" storage)))
      (text_of (get "type" storage)) (offset_of (get "offset" storage))
value_lines keccak256 _ = ""

unfoldable pub array_lines : (Bytes → Bytes) → Values → String
unfolding value_lines
array_lines keccak256 nil = ""
array_lines keccak256 (cons value values) =
    value_lines keccak256 value <> array_lines keccak256 values

abbrev layout_lines : (Bytes → Bytes) → Option Value → String
layout_lines keccak256 (some (array values)) = array_lines keccak256 values
layout_lines keccak256 _ = ""

-- The lines of `storageLayout`, if it is an object
unfoldable pub storage_lines : (Bytes → Bytes) → Option Value → String
unfolding array_lines get
storage_lines keccak256 (some (object layout)) = layout_lines keccak256 (get "storage" layout)
storage_lines keccak256 _ = ""
