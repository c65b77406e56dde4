-- ===== src/Deploy/Calldata/InitCode.antt =====
-- What the init code does when the chain runs it.
use cargo_stylus.Common.{
  ℕ, zero, suc, ◌+◌, ◌<◌, ◌^◌, ◌≡◌, refl, ap, ◌∙◌, some, [], ◌∷◌, ◌++◌, length, drop, replicate,
  take-append, drop-append, arith,
}
use mathlib.Core.List.{append_assoc}
use cargo_stylus.Common.Bytes.{
  Bytes, to_be_bytes, from_be_bytes, length-to_be_bytes, from_be_bytes-to_be_bytes, Fits-of_lt,
}
use cargo_stylus.Hostio.State.{load, store}
use cargo_stylus.Hostio.State.Laws.{load-store_self}
use cargo_stylus.Deploy.Calldata.{contract_deployment_calldata}
use cargo_stylus.Deploy.Calldata.Evm.{
  Machine, running, padded, decode, execute, fetch, step, create, boot,
}

-- The data of a push is what stands behind it.
padded-append : (n : ℕ) (xs ys : Bytes) → length xs ≡ n → padded n (xs ++ ys) ≡ xs
padded-append n xs ys h =
    rw (append_assoc xs ys (replicate n 0)) (take-append n xs (ys ++ replicate n 0) h)

padded_self : (code : Bytes) → padded (length code) code ≡ code
padded_self code = take-append (length code) code (replicate (length code) 0) refl

drop_add : (n k : ℕ) (xs ys : Bytes) → length xs ≡ n → drop (n + k) (xs ++ ys) ≡ drop k ys
drop_add n k [] ys h = ap (λ m. drop m ys) (omega arith)
drop_add zero k (x ∷ xs) ys h = absurd (omega arith)
drop_add (suc n) k (x ∷ xs) ys h =
    let e : suc n + k ≡ suc (n + k) = omega arith in rw e (drop_add n k xs ys (omega arith))

module _ (code : Bytes) where
  abbrev size : Bytes
  size = to_be_bytes 32 (length code)

  abbrev ending : Bytes
  ending = 0x80 ∷ 0x60 ∷ 43 ∷ 0x60 ∷ 0 ∷ 0x39 ∷ 0x60 ∷ 0 ∷ 0xf3 ∷ 0 ∷ code

  abbrev whole : Bytes
  whole = 0x7f ∷ (size ++ ending)

  -- The machine after the first instruction.
  abbrev pushed : Machine
  pushed = record { rest = ending; stack = length code ∷ []; memory = λ a. 0 }

  step-pushed : length code < 256 ^ 32 → step whole (boot whole) ≡ running pushed
  unfolding step fetch execute decode
  step-pushed h =
      rw
        (
          padded-append 32 size ending (length-to_be_bytes 32 (length code)),
          drop-append 32 size ending (length-to_be_bytes 32 (length code)),
          from_be_bytes-to_be_bytes 32 (length code) (Fits-of_lt 32 (length code) h),
        )
        refl

  copied : padded (length code) (drop 43 whole) ≡ code
  copied =
      ap (padded (length code)) (drop_add 32 10 size ending (length-to_be_bytes 32 (length code)))
      ∙ padded_self code

  create-pushed : create 7 whole pushed ≡ some code
  unfolding create step fetch execute decode from_be_bytes
  create-pushed =
      ap (λ b. some (load 0 (length code) (store 0 b (λ a. 0)))) copied
      ∙ ap some (load-store_self code 0 (λ a. 0))

-- A machine that goes on is as good as where it gets.
create_running :
    (fuel : ℕ) (code : Bytes) (s s' : Machine)
    → step code s ≡ running s'
    → create (suc fuel) code s ≡ create fuel code s'
unfolding create
create_running fuel code s s' h = cc h

-- The init code of a deployment, run by the chain, leaves exactly the contract's code within eight
-- instructions, if the length of the code fits 32 bytes.
pub create-contract_deployment_calldata :
    (code : Bytes)
    → length code < 256 ^ 32
    → create 8 (contract_deployment_calldata code) (boot (contract_deployment_calldata code))
      ≡ some code
unfolding contract_deployment_calldata
create-contract_deployment_calldata code h =
    create_running 7 (whole code) (boot (whole code)) (pushed code) (step-pushed code h)
    ∙ create-pushed code
