-- ===== src/Tests/Bindings.antt =====
-- The C bindings of two contracts in a directory `src`.
use cargo_stylus.Common.{
  ◌≡◌, refl, String, true, none, some, List, [], ◌∷◌, map, if◌then◌else◌, All,
}
use cargo_stylus.Common.Text.{str_eq}
use cargo_stylus.Common.Bytes.{to_be_bytes}
use cargo_stylus.Common.Outcome.{Outcome, ok, err, panic, out_of_fuel}
use cargo_stylus.Trace.Json.{Members, array, object, string, number, nil, cons, end, member}
use cargo_stylus.Gen
use cargo_stylus.Gen.Text.{Function, Mutability, sort_by_signature, header_lines, overloads_of}
use cargo_stylus.Gen.Storage.{parse_u64, storage_lines}
use cargo_stylus.Gen.Dirs.{gen_file_dirs}

abbrev get_total : Function
get_total = record {
  name = "total";
  signature = "total()";
  selector = 769380666;
  state_mutability = Mutability.view;
}

abbrev pay : String → Function
pay sig = record {
  name = "pay";
  signature = sig;
  selector = 1;
  state_mutability = Mutability.payable;
}

abbrev host : Gen.GenHost
host = record {
  components = λ name.
      if str_eq name "src/A.sol"
      then "src" ∷ "A.sol" ∷ []
      else if str_eq name "src/B.sol"
      then "src" ∷ "B.sol" ∷ []
      else name ∷ [];
  abi_functions = λ abi. some (get_total ∷ []);
  to_uppercase = λ s. s;
  keccak256 = λ bytes. 255 ∷ [];
  order = λ methods. methods;
  creates = λ dir. true;
  writes = λ path. true;
}

abbrev contract : String → Members
contract name = member name (object (member "abi" (array nil) end)) end

abbrev begin : Gen.GenState
begin = record { pathbuf = "out" ∷ []; files = [] }

abbrev paths_of : Outcome Gen.GenError Gen.GenState → Outcome Gen.GenError (List (List String))
paths_of (ok state) = ok (map (λ file. file.0) state.files)
paths_of (err e) = err e
paths_of panic = panic
paths_of out_of_fuel = out_of_fuel

second_dir :
    paths_of (
      Gen.gen_files host
        (member "src/A.sol"
          (object (contract "A"))
          (member "src/B.sol" (object (contract "B")) end))
        begin)
    ≡ ok (
        ("out" ∷ "src" ∷ "A.sol" ∷ "A.h" ∷ [])
        ∷ ("out" ∷ "src" ∷ "A.sol" ∷ "A_main.c" ∷ [])
        ∷ ("out" ∷ "src" ∷ "src" ∷ "B.sol" ∷ "B.h" ∷ [])
        ∷ ("out" ∷ "src" ∷ "src" ∷ "B.sol" ∷ "B_main.c" ∷ [])
        ∷ [])
unfolding Gen.gen_files
second_dir = refl

header_of_view :
    header_lines "total" get_total
    ≡ "#define SELECTOR_total 0x2ddbd13a // total()\nArbResult total(const void *storage, uint8_t *input, size_t len); // total()\n"
unfolding header_lines
header_of_view = refl

slot_of_dyn :
    storage_lines
      (λ bytes. 255 ∷ [])
      (some (
        object (
          member "storage"
            (array (
              cons
                (object (
                  member "label" (string "xs") (
                    member "slot" (string "258") (
                      member "type"
                        (string "t_array(t_bool)dyn_storage")
                        (member "offset" (number (some 0)) end)))))
                nil))
            end)))
    ≡ "#define STORAGE_SLOT_xs {0x00, 0x00, 0x00, 0x00, 0x00, 0x00, 0x00, 0x00, 0x00, 0x00, 0x00, 0x00, 0x00, 0x00, 0x00, 0x00, 0x00, 0x00, 0x00, 0x00, 0x00, 0x00, 0x00, 0x00, 0x00, 0x00, 0x00, 0x00, 0x00, 0x00, 0x01, 0x02} // t_array(t_bool)dyn_storage\n#define STORAGE_BASE_xs {0xff} // t_array(t_bool)dyn_storage\n"
unfolding storage_lines to_be_bytes
slot_of_dyn = refl

slot_too_large : parse_u64 "18446744073709551616" ≡ none
unfolding parse_u64
slot_too_large = refl

slot_with_sign : parse_u64 "+7" ≡ some 7
unfolding parse_u64
slot_with_sign = refl

-- The second overload by its signature gets the number 1.
overloads :
    overloads_of
      (λ name f. name)
      "pay"
      0
      (sort_by_signature (pay "pay(uint8)" ∷ pay "pay(bool)" ∷ []))
    ≡ "paypay_1"
unfolding overloads_of sort_by_signature
overloads = refl

gen_file_dirs_example :
    (after : Gen.GenState) × (Gen.gen_file host "src/A.sol" (object (contract "A")) begin
      ≡ ok after)
    × (after.pathbuf ≡ "out" ∷ "src" ∷ [])
    × ((new : List (List String × String)) × (after.files ≡ new)
        × All
            (λ file. (filename : String) × (file.0 ≡ "out" ∷ "src" ∷ "A.sol" ∷ filename ∷ []))
            new)
gen_file_dirs_example =
    gen_file_dirs host (λ dir. refl) (λ path. refl) (λ abi. (get_total ∷ [], refl)) "src/A.sol"
      "A.sol" ("src" ∷ []) (contract "A") begin refl
