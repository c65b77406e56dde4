-- ===== src/Deploy/Calldata/Evm.antt =====
-- The part of the EVM that init code runs on: the instructions of the prelude, without jumps, so
-- that the program counter is the code that is left. This is the yellow paper's side, not the
-- tool's.
use cargo_stylus.Common.{
  ℕ, zero, suc, Option, none, some, List, [], ◌∷◌, ◌++◌, ◌==◌, take, drop, replicate, if◌then◌else◌,
}
use cargo_stylus.Common.Bytes.{Bytes, from_be_bytes}
use cargo_stylus.Hostio.State.{Memory, load, store}

pub data Op : Type 0 where
  push : ℕ → Op
  dup1 code_copy return_data invalid : Op

unfoldable pub decode : ℕ → Op
decode op =
    if op == 0x7f
    then Op.push 32
    else if op == 0x60
    then Op.push 1
    else if op == 0x80
    then Op.dup1
    else if op == 0x39
    then Op.code_copy
    else if op == 0xf3
    then Op.return_data
    else Op.invalid

pub record Machine : Type 0 where
  pub rest : Bytes
  pub stack : List ℕ
  pub memory : Memory

pub data Step : Type 0 where
  running : Machine → Step
  returned : Bytes → Step
  failed : Step

-- Data that ends early counts as followed by zeros.
abbrev pub padded : ℕ → Bytes → Bytes
padded n b = take n (b ++ replicate n 0)

-- One instruction, of which the code behind it, the stack and the memory are given.
unfoldable pub execute : Bytes → Op → Bytes → List ℕ → Memory → Step
execute code (Op.push n) rest stack m =
    running
      (record { rest = drop n rest; stack = from_be_bytes (padded n rest) ∷ stack; memory = m })
execute code Op.dup1 rest (a ∷ stack) m =
    running (record { rest = rest; stack = a ∷ a ∷ stack; memory = m })
execute code Op.code_copy rest (dest ∷ offset ∷ size ∷ stack) m =
    running (record {
      rest = rest;
      stack = stack;
      memory = store dest (padded size (drop offset code)) m;
    })
execute code Op.return_data rest (offset ∷ size ∷ stack) m = returned (load offset size m)
execute code _ rest stack m = failed

-- The end of the code stops the machine.
unfoldable pub fetch : Bytes → Bytes → Machine → Step
fetch code [] s = returned []
fetch code (op ∷ rest) s = execute code (decode op) rest s.stack s.memory

unfoldable pub step : Bytes → Machine → Step
step code s = fetch code s.rest s

-- The code that a creation with this init code leaves, if it ends within `fuel` instructions.
unfoldable pub create : ℕ → Bytes → Machine → Option Bytes
create zero code s = none
create (suc fuel) code s = elim (step code s) [
  | running s' ↦ create fuel code s'
  | returned b ↦ some b
  | failed ↦ none
]

abbrev pub boot : Bytes → Machine
boot code = record { rest = code; stack = []; memory = λ a. 0 }
