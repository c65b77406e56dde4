-- ===== src/Rpc.antt =====
-- What the commands use of alloy's `Provider`, and the monad of a command: it asks the node, sends
-- transactions, fails or panics. What has been sent stays sent when a command fails later.
pub mod Keeps
pub mod Sends
use cargo_stylus.Common.{ℕ, String, Bool, true, false, Option, none, some, List, [], ◌∷◌, ◌++◌}
use cargo_stylus.Common.Outcome
use cargo_stylus.Common.Outcome.{Outcome, ok, err, panic, out_of_fuel}
use cargo_stylus.Common.Bytes.{Bytes}

-- `TransactionRequest`; `to` is empty for a deployment.
pub record Tx : Type 0 where
  pub sender : Bytes
  pub to : Option Bytes
  pub value : ℕ
  pub input : Bytes
  pub gas : Option ℕ
  pub max_fee_per_gas : Option ℕ
  pub max_priority_fee_per_gas : Option ℕ

pub record Log : Type 0 where
  pub topics : List Bytes
  pub bytes : Bytes

-- `TransactionReceipt`
pub record Receipt : Type 0 where
  pub status : Bool
  pub contract_address : Option Bytes
  pub logs : List Log

-- The ways in which the commands fail, in the words of the source.
pub data Failure : Type 0 where
  rpc : String → Failure
  old_testnet build_failed compress_failed : Failure
  missing_entrypoint activation_call_failed : Failure
  no_error_payload not_transport undecoded unexpected_arb_wasm : Failure
  signature_without_wasm_file bad_signature no_signature_output : Failure
  not_payable argument_count unresolved_argument bad_argument bad_encoding : Failure
  arguments_without_constructor bad_max_fee no_wallet not_enough_funds : Failure
  missing_address not_completed reverted : Failure
  address_missing_from_log address_not_found : Failure
  asm_too_large already_cached bids_paused bid_too_small bid_not_activated : Failure
  no_cache_managers : Failure
  no_constructor bytecode_mismatch bad_init_data undecoded_call : Failure

-- The errors that the interface `ArbWasm` declares, as far as they are told apart.
pub data ArbWasmError : Type 0 where
  program_not_wasm program_not_activated program_needs_upgrade program_expired : ArbWasmError
  program_up_to_date program_keepalive_too_soon program_insufficient_value : ArbWasmError

-- `codehashVersion(codehash).call()`: a version, or an error at one of the steps of decoding it.
pub data VersionAnswer : Type 0 where
  version : ℕ → VersionAnswer
  other_error no_payload not_decoded : VersionAnswer
  arb_wasm : ArbWasmError → VersionAnswer

-- `activateProgram(address).call()`: the data fee, or an error whose text says
-- `pay_for_memory_grow` or not.
pub data ActivateAnswer : Type 0 where
  data_fee : ℕ → ActivateAnswer
  call_error : (mentions_pay_for_memory_grow : Bool) → ActivateAnswer

-- The node. An answer may depend on what has been sent to it; `none` is an error of the transport.
pub record Provider : Type 0 where
  pub estimate_gas : List Tx → Tx → Option ℕ
  pub gas_price : List Tx → Option ℕ
  pub transaction_count : List Tx → Bytes → Option ℕ
  pub balance : List Tx → Bytes → Option ℕ
  pub code_at : List Tx → Bytes → Option Bytes
  pub chain_id : List Tx → Option ℕ
  pub codehash_version : List Tx → Bytes → VersionAnswer
  -- The code that the call pretends to stand at the address, and the address.
  pub activate_call : List Tx → Bytes → Bytes → ActivateAnswer
  -- `send_transaction`: whether the node takes the transaction
  pub accepts : List Tx → Tx → Bool
  -- `get_receipt` of the last transaction
  pub receipt : List Tx → Option Receipt

-- A command, from what has been sent before it.
abbrev pub Command : Type 0 → Type 0
Command A = List Tx → Outcome Failure A × List Tx

continue :
    {A B : Type 0} → Outcome Failure A → List Tx → (A → Command B) → Outcome Failure B × List Tx
continue (ok a) sent f = f a sent
continue (err e) sent f = (err e, sent)
continue panic sent f = (panic, sent)
continue out_of_fuel sent f = (out_of_fuel, sent)

infixl 5 ◌>>=◌ ◌>>◌
unfoldable pub ◌>>=◌ : {A B : Type 0} → Command A → (A → Command B) → Command B
unfolding continue
◌>>=◌ m f sent = let r = m sent in continue r.0 r.1 f

abbrev pub ◌>>◌ : {A B : Type 0} → Command A → Command B → Command B
m >> k = m >>= λ _. k

unfoldable pub pure : {A : Type 0} → A → Command A
pure a sent = (ok a, sent)

unfoldable pub bail : {A : Type 0} → Failure → Command A
bail e sent = (err e, sent)

-- A computation that does not touch the node.
unfoldable pub lift : {A : Type 0} → Outcome Failure A → Command A
lift m sent = (m, sent)

-- A question to the node, with `?`
unfoldable pub ask : {A : Type 0} → Failure → (List Tx → Option A) → Command A
ask e f sent = (Outcome.ok_or e (f sent), sent)

-- A question whose error is a panic, `.expect(…)`
unfoldable pub expect : {A : Type 0} → (List Tx → Option A) → Command A
expect f sent = (Outcome.unwrap (f sent), sent)

-- A question whose answer is looked at by the caller.
unfoldable pub query : {A : Type 0} → (List Tx → A) → Command A
query f sent = (ok (f sent), sent)

-- `.expect(…)` on a command: its error becomes a panic.
unfoldable pub expecting : {A : Type 0} → Command A → Command A
expecting m sent = elim (m sent).0 [
  | ok a ↦ (ok a, (m sent).1)
  | err e ↦ (panic, (m sent).1)
  | panic ↦ (panic, (m sent).1)
  | out_of_fuel ↦ (out_of_fuel, (m sent).1)
]

-- `provider.send_transaction(tx).await?`: an accepted transaction is on its way.
unfoldable pub send_transaction : Provider → Tx → Command (Unit {0})
send_transaction p tx sent = elim (p.accepts sent tx) [
  | true ↦ (ok tt, sent ++ tx ∷ [])
  | false ↦ (err (rpc "send_transaction"), sent)
]
