-- ===== src/Hostio/Call/Delivers.antt =====
-- What the guest receives: the bytes that the trace has for the call, or for `account_code` those
-- that its `copy!` takes.
use cargo_stylus.Common.{ℕ, ◌≡◌, Option, none, some, ◌++◌, ◌-◌, length, take}
use cargo_stylus.Common.Bytes.{Bytes}
use cargo_stylus.Trace.Kinds.{HostioKind, Hostio, kind_of}
use cargo_stylus.Trace.Names.{Names}
use cargo_stylus.Trace.Print.{outs_of}
use cargo_stylus.Hostio.State.{Replay, Host, Memory, ◌>>=◌, return, load, frame, copy_box}
use cargo_stylus.Hostio.State.Laws.{load-store_self}
use cargo_stylus.Hostio.State.Frames.{Served, Option-inv, frame-Served, frame-bind}
use cargo_stylus.Hostio.State.Ensures.{Ensures, Ensures-unreachable, ensures_rules}
use cargo_stylus.Hostio.Call.{Call, Reply, word, nothing_of, symbol, run}
use cargo_stylus.Hostio.Call.Serves.{Served-same}
use cargo_stylus.Hostio.Data.{
  read_args, read_args_body, storage_load_bytes32, storage_load_bytes32_body,
  transient_load_bytes32, transient_load_bytes32_body,
}
use cargo_stylus.Hostio.Account.{
  account_balance, account_balance_body, account_code, account_code_body, account_codehash,
  account_codehash_body,
}
use cargo_stylus.Hostio.Chain.{
  block_basefee, block_basefee_body, tx_gas_price, tx_gas_price_body, block_coinbase,
  block_coinbase_body, contract_address, contract_address_body, msg_sender, msg_sender_body,
  msg_value, msg_value_body, tx_origin, tx_origin_body,
}
use cargo_stylus.Hostio.Math.{
  math_div, math_div_body, math_mod, math_mod_body, math_pow, math_pow_body, math_add_mod,
  math_add_mod_body, native_keccak256, native_keccak256_body,
}
use cargo_stylus.Hostio.Calls.{read_return_data, read_return_data_body}

-- Where the guest wants the output of a call that has one output in memory. The calls and creations
-- have several outputs.
abbrev pub dest_of : Call → Option ℕ
dest_of (Call.read_args dest) = some dest
dest_of (Call.storage_load_bytes32 _ dest) = some dest
dest_of (Call.transient_load_bytes32 _ dest) = some dest
dest_of (Call.account_balance _ dest) = some dest
dest_of (Call.account_code _ _ _ dest) = some dest
dest_of (Call.account_codehash _ dest) = some dest
dest_of (Call.block_basefee dest) = some dest
dest_of (Call.tx_gas_price dest) = some dest
dest_of (Call.block_coinbase dest) = some dest
dest_of (Call.contract_address dest) = some dest
dest_of (Call.msg_sender dest) = some dest
dest_of (Call.msg_value dest) = some dest
dest_of (Call.tx_origin dest) = some dest
dest_of (Call.math_div value _) = some value
dest_of (Call.math_mod value _) = some value
dest_of (Call.math_pow value _) = some value
dest_of (Call.math_add_mod value _ _) = some value
dest_of (Call.native_keccak256 _ _ output) = some output
dest_of (Call.read_return_data dest _ _) = some dest
dest_of _ = none

-- What is recorded for the guest; of the code of an account, the sixteen bytes of memory from the
-- code on.
abbrev pub output_of : (past_end : ℕ → Bytes) → HostioKind → Bytes
output_of past_end (HostioKind.account_code _ _ _ code) =
    take 16 (code ++ past_end (16 - length code))
output_of past_end k = outs_of k

module _ (past_end : ℕ → Bytes) where
  -- The output stands at the address.
  abbrev pub Received : ℕ → HostioKind → Memory → Type 0
  Received dest k m = load dest (length (output_of past_end k)) m ≡ output_of past_end k

  read_args-Received :
      (dest : ℕ) (k : HostioKind) (s : Replay)
      → Ensures s (λ q. Received dest k q.1.memory) (read_args_body dest k)
  unfolding read_args_body outs_of
  read_args-Received dest (HostioKind.read_args _) s =
      search (ensures_rules, load-store_self) depth 20
  read_args-Received dest _ s = Ensures-unreachable s _

  storage_load_bytes32-Received :
      (key_ptr dest : ℕ) (k : HostioKind) (s : Replay)
      → Ensures s (λ q. Received dest k q.1.memory) (storage_load_bytes32_body key_ptr dest k)
  unfolding storage_load_bytes32_body outs_of
  storage_load_bytes32-Received key_ptr dest (HostioKind.storage_load_bytes32 _ _) s =
      search (ensures_rules, load-store_self) depth 20
  storage_load_bytes32-Received key_ptr dest _ s = Ensures-unreachable s _

  transient_load_bytes32-Received :
      (key_ptr dest : ℕ) (k : HostioKind) (s : Replay)
      → Ensures s (λ q. Received dest k q.1.memory) (transient_load_bytes32_body key_ptr dest k)
  unfolding transient_load_bytes32_body outs_of
  transient_load_bytes32-Received key_ptr dest (HostioKind.transient_load_bytes32 _ _) s =
      search (ensures_rules, load-store_self) depth 20
  transient_load_bytes32-Received key_ptr dest _ s = Ensures-unreachable s _

  account_balance-Received :
      (address_ptr dest : ℕ) (k : HostioKind) (s : Replay)
      → Ensures s (λ q. Received dest k q.1.memory) (account_balance_body address_ptr dest k)
  unfolding account_balance_body outs_of
  account_balance-Received address_ptr dest (HostioKind.account_balance _ _) s =
      search (ensures_rules, load-store_self) depth 20
  account_balance-Received address_ptr dest _ s = Ensures-unreachable s _

  account_code-Received :
      (address_ptr offset_recv size_recv dest : ℕ) (k : HostioKind) (s : Replay)
      → Ensures s
          (λ q. Received dest k q.1.memory)
          (account_code_body past_end address_ptr offset_recv size_recv dest k)
  unfolding account_code_body copy_box
  account_code-Received address_ptr offset_recv size_recv dest (HostioKind.account_code _ _ _ _) s =
      search (ensures_rules, load-store_self) depth 20
  account_code-Received address_ptr offset_recv size_recv dest _ s = Ensures-unreachable s _

  account_codehash-Received :
      (address_ptr dest : ℕ) (k : HostioKind) (s : Replay)
      → Ensures s (λ q. Received dest k q.1.memory) (account_codehash_body address_ptr dest k)
  unfolding account_codehash_body outs_of
  account_codehash-Received address_ptr dest (HostioKind.account_codehash _ _) s =
      search (ensures_rules, load-store_self) depth 20
  account_codehash-Received address_ptr dest _ s = Ensures-unreachable s _

  block_basefee-Received :
      (dest : ℕ) (k : HostioKind) (s : Replay)
      → Ensures s (λ q. Received dest k q.1.memory) (block_basefee_body dest k)
  unfolding block_basefee_body outs_of
  block_basefee-Received dest (HostioKind.block_basefee _) s =
      search (ensures_rules, load-store_self) depth 20
  block_basefee-Received dest _ s = Ensures-unreachable s _

  tx_gas_price-Received :
      (dest : ℕ) (k : HostioKind) (s : Replay)
      → Ensures s (λ q. Received dest k q.1.memory) (tx_gas_price_body dest k)
  unfolding tx_gas_price_body outs_of
  tx_gas_price-Received dest (HostioKind.tx_gas_price _) s =
      search (ensures_rules, load-store_self) depth 20
  tx_gas_price-Received dest _ s = Ensures-unreachable s _

  block_coinbase-Received :
      (dest : ℕ) (k : HostioKind) (s : Replay)
      → Ensures s (λ q. Received dest k q.1.memory) (block_coinbase_body dest k)
  unfolding block_coinbase_body outs_of
  block_coinbase-Received dest (HostioKind.block_coinbase _) s =
      search (ensures_rules, load-store_self) depth 20
  block_coinbase-Received dest _ s = Ensures-unreachable s _

  contract_address-Received :
      (dest : ℕ) (k : HostioKind) (s : Replay)
      → Ensures s (λ q. Received dest k q.1.memory) (contract_address_body dest k)
  unfolding contract_address_body outs_of
  contract_address-Received dest (HostioKind.contract_address _) s =
      search (ensures_rules, load-store_self) depth 20
  contract_address-Received dest _ s = Ensures-unreachable s _

  msg_sender-Received :
      (dest : ℕ) (k : HostioKind) (s : Replay)
      → Ensures s (λ q. Received dest k q.1.memory) (msg_sender_body dest k)
  unfolding msg_sender_body outs_of
  msg_sender-Received dest (HostioKind.msg_sender _) s =
      search (ensures_rules, load-store_self) depth 20
  msg_sender-Received dest _ s = Ensures-unreachable s _

  msg_value-Received :
      (dest : ℕ) (k : HostioKind) (s : Replay)
      → Ensures s (λ q. Received dest k q.1.memory) (msg_value_body dest k)
  unfolding msg_value_body outs_of
  msg_value-Received dest (HostioKind.msg_value _) s =
      search (ensures_rules, load-store_self) depth 20
  msg_value-Received dest _ s = Ensures-unreachable s _

  tx_origin-Received :
      (dest : ℕ) (k : HostioKind) (s : Replay)
      → Ensures s (λ q. Received dest k q.1.memory) (tx_origin_body dest k)
  unfolding tx_origin_body outs_of
  tx_origin-Received dest (HostioKind.tx_origin _) s =
      search (ensures_rules, load-store_self) depth 20
  tx_origin-Received dest _ s = Ensures-unreachable s _

  math_div-Received :
      (value divisor : ℕ) (k : HostioKind) (s : Replay)
      → Ensures s (λ q. Received value k q.1.memory) (math_div_body value divisor k)
  unfolding math_div_body outs_of
  math_div-Received value divisor (HostioKind.math_div _ _ _) s =
      search (ensures_rules, load-store_self) depth 20
  math_div-Received value divisor _ s = Ensures-unreachable s _

  math_mod-Received :
      (value modulus : ℕ) (k : HostioKind) (s : Replay)
      → Ensures s (λ q. Received value k q.1.memory) (math_mod_body value modulus k)
  unfolding math_mod_body outs_of
  math_mod-Received value modulus (HostioKind.math_mod _ _ _) s =
      search (ensures_rules, load-store_self) depth 20
  math_mod-Received value modulus _ s = Ensures-unreachable s _

  math_pow-Received :
      (value exponent : ℕ) (k : HostioKind) (s : Replay)
      → Ensures s (λ q. Received value k q.1.memory) (math_pow_body value exponent k)
  unfolding math_pow_body outs_of
  math_pow-Received value exponent (HostioKind.math_pow _ _ _) s =
      search (ensures_rules, load-store_self) depth 20
  math_pow-Received value exponent _ s = Ensures-unreachable s _

  math_add_mod-Received :
      (value addend modulus : ℕ) (k : HostioKind) (s : Replay)
      → Ensures s (λ q. Received value k q.1.memory) (math_add_mod_body value addend modulus k)
  unfolding math_add_mod_body outs_of
  math_add_mod-Received value addend modulus (HostioKind.math_add_mod _ _ _ _) s =
      search (ensures_rules, load-store_self) depth 20
  math_add_mod-Received value addend modulus _ s = Ensures-unreachable s _

  native_keccak256-Received :
      (bytes_ptr len output : ℕ) (k : HostioKind) (s : Replay)
      → Ensures s (λ q. Received output k q.1.memory) (native_keccak256_body bytes_ptr len output k)
  unfolding native_keccak256_body outs_of
  native_keccak256-Received bytes_ptr len output (HostioKind.native_keccak256 _ _) s =
      search (ensures_rules, load-store_self) depth 20
  native_keccak256-Received bytes_ptr len output _ s = Ensures-unreachable s _

  read_return_data-Received :
      (dest offset_value size_value : ℕ) (k : HostioKind) (s : Replay)
      → Ensures s
          (λ q. Received dest k q.1.memory)
          (read_return_data_body dest offset_value size_value k)
  unfolding read_return_data_body outs_of
  read_return_data-Received dest offset_value size_value (HostioKind.read_return_data _ _ _) s =
      search (ensures_rules, load-store_self) depth 20
  read_return_data-Received dest offset_value size_value _ s = Ensures-unreachable s _

-- The call is served by a recorded call whose output stands at `dest`.
pub record Delivered (N : Names) (past_end : ℕ → Bytes) (c : Call) (dest : ℕ) (s s' : Replay)
    : Type 0 where
  pub call : Hostio
  pub serves : Served N (symbol c) s s' call
  pub received : Received past_end dest (kind_of call) s'.memory

module _ (N : Names) (past_end : ℕ → Bytes) where
  deliver :
      {A : Type 0} (f : A → Reply) (body : HostioKind → Host A) (c : Call) (dest dest' : ℕ)
      (s : Replay) (r : Reply) (s' : Replay)
      → ((k : HostioKind) (s1 : Replay)
          → Ensures s1 (λ q. Received past_end dest k q.1.memory) (body k))
      → ◌≡◌ {A = Option ℕ} (some dest) (some dest')
      → ((frame N (symbol c) >>= body) >>= λ a. return (f a)) s ≡ some (r, s')
      → Delivered N past_end c dest' s s'
  unfolding ◌>>=◌ return
  deliver f body c dest dest' s r s' e d h =
      let (p, e1, e2) = Option-inv ((frame N (symbol c) >>= body) s) _ (r, s') h in
      let (k, s1, e3, e4) = frame-bind N (symbol c) s body p e1 in
      let (call, v, is_kind, same_memory) = frame-Served N (symbol c) s k s1 e3 in
      let (t, g) = (e k s1).at p e4 in
      let last : p.1 ≡ s' = cc e2 in
      let same : dest ≡ dest' = cc d in
      record {
        call = call;
        serves = rw (← last) (Served-same N past_end (symbol c) s s1 p.1 call t v);
        received = rw (← last, ← same, is_kind) g;
      }

  -- Whenever a host function with one output in memory returns, `account_code` among them, it has
  -- been served by the next recorded call of its name, and the output that is recorded for that
  -- call stands where the guest wants it; but for `account_code` what stands there are the first
  -- sixteen bytes of the code followed by what lies behind it in memory, whatever its length.
  pub run-Delivered :
      (c : Call) (dest : ℕ) (s : Replay) (r : Reply) (s' : Replay)
      → dest_of c ≡ some dest
      → run N past_end c s ≡ some (r, s')
      → Delivered N past_end c dest s s'
  unfolding run symbol read_args storage_load_bytes32 transient_load_bytes32 account_balance
      account_code account_codehash block_basefee tx_gas_price block_coinbase contract_address
      msg_sender msg_value tx_origin math_div math_mod math_pow math_add_mod native_keccak256
      read_return_data
  run-Delivered (Call.read_args dest) to s r s' d h =
      deliver nothing_of (read_args_body dest) (Call.read_args dest) dest to s r s'
        (read_args-Received past_end dest) d h
  run-Delivered (Call.storage_load_bytes32 key_ptr dest) to s r s' d h =
      deliver nothing_of (storage_load_bytes32_body key_ptr dest)
        (Call.storage_load_bytes32 key_ptr dest) dest to s r s'
        (storage_load_bytes32-Received past_end key_ptr dest) d h
  run-Delivered (Call.transient_load_bytes32 key_ptr dest) to s r s' d h =
      deliver nothing_of (transient_load_bytes32_body key_ptr dest)
        (Call.transient_load_bytes32 key_ptr dest) dest to s r s'
        (transient_load_bytes32-Received past_end key_ptr dest) d h
  run-Delivered (Call.account_balance address_ptr dest) to s r s' d h =
      deliver nothing_of (account_balance_body address_ptr dest)
        (Call.account_balance address_ptr dest) dest to s r s'
        (account_balance-Received past_end address_ptr dest) d h
  run-Delivered (Call.account_code address_ptr offset_recv size_recv dest) to s r s' d h =
      deliver word (account_code_body past_end address_ptr offset_recv size_recv dest)
        (Call.account_code address_ptr offset_recv size_recv dest) dest to s r s'
        (account_code-Received past_end address_ptr offset_recv size_recv dest) d h
  run-Delivered (Call.account_codehash address_ptr dest) to s r s' d h =
      deliver nothing_of (account_codehash_body address_ptr dest)
        (Call.account_codehash address_ptr dest) dest to s r s'
        (account_codehash-Received past_end address_ptr dest) d h
  run-Delivered (Call.block_basefee dest) to s r s' d h =
      deliver nothing_of (block_basefee_body dest) (Call.block_basefee dest) dest to s r s'
        (block_basefee-Received past_end dest) d h
  run-Delivered (Call.tx_gas_price dest) to s r s' d h =
      deliver nothing_of (tx_gas_price_body dest) (Call.tx_gas_price dest) dest to s r s'
        (tx_gas_price-Received past_end dest) d h
  run-Delivered (Call.block_coinbase dest) to s r s' d h =
      deliver nothing_of (block_coinbase_body dest) (Call.block_coinbase dest) dest to s r s'
        (block_coinbase-Received past_end dest) d h
  run-Delivered (Call.contract_address dest) to s r s' d h =
      deliver nothing_of (contract_address_body dest) (Call.contract_address dest) dest to s r s'
        (contract_address-Received past_end dest) d h
  run-Delivered (Call.msg_sender dest) to s r s' d h =
      deliver nothing_of (msg_sender_body dest) (Call.msg_sender dest) dest to s r s'
        (msg_sender-Received past_end dest) d h
  run-Delivered (Call.msg_value dest) to s r s' d h =
      deliver nothing_of (msg_value_body dest) (Call.msg_value dest) dest to s r s'
        (msg_value-Received past_end dest) d h
  run-Delivered (Call.tx_origin dest) to s r s' d h =
      deliver nothing_of (tx_origin_body dest) (Call.tx_origin dest) dest to s r s'
        (tx_origin-Received past_end dest) d h
  run-Delivered (Call.math_div value divisor) to s r s' d h =
      deliver nothing_of (math_div_body value divisor) (Call.math_div value divisor) value to s r s'
        (math_div-Received past_end value divisor) d h
  run-Delivered (Call.math_mod value modulus) to s r s' d h =
      deliver nothing_of (math_mod_body value modulus) (Call.math_mod value modulus) value to s r s'
        (math_mod-Received past_end value modulus) d h
  run-Delivered (Call.math_pow value exponent) to s r s' d h =
      deliver nothing_of (math_pow_body value exponent) (Call.math_pow value exponent) value to s r
        s' (math_pow-Received past_end value exponent) d h
  run-Delivered (Call.math_add_mod value addend modulus) to s r s' d h =
      deliver nothing_of (math_add_mod_body value addend modulus)
        (Call.math_add_mod value addend modulus) value to s r s'
        (math_add_mod-Received past_end value addend modulus) d h
  run-Delivered (Call.native_keccak256 bytes_ptr len output) to s r s' d h =
      deliver nothing_of (native_keccak256_body bytes_ptr len output)
        (Call.native_keccak256 bytes_ptr len output) output to s r s'
        (native_keccak256-Received past_end bytes_ptr len output) d h
  run-Delivered (Call.read_return_data dest offset_value size_value) to s r s' d h =
      deliver word (read_return_data_body dest offset_value size_value)
        (Call.read_return_data dest offset_value size_value) dest to s r s'
        (read_return_data-Received past_end dest offset_value size_value) d h
  run-Delivered _ to s r s' d h = absurd (cc d)
