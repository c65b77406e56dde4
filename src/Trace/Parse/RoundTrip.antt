-- ===== src/Trace/Parse/RoundTrip.antt =====
-- `parse_frame` reads back its format, and refuses the steps that main/src/query.js reports for EVM
-- calls.
use cargo_stylus.Common.{
  ℕ, String, zero, suc, ◌≤◌, arith, ◌≡◌, refl, true, false, Option, none, some, [],
}
use cargo_stylus.Common.Outcome
use cargo_stylus.Common.Outcome.{Outcome, ok, err}
use cargo_stylus.Common.Bytes.{Bytes}
use cargo_stylus.Trace.Kinds.{
  HostioKind, Hostio, hostio, TraceFrame, trace_frame, Steps, no_steps, push_step, variant_of,
  address_of, steps_of,
}
use cargo_stylus.Trace.Json.{
  Value, Values, Members, member, end, remove, depth, depth_values, depth_members,
}
use cargo_stylus.Trace.Cursor.{TraceError, missing, Codec, ◌>>=◌, pure, lift, take_key}
use cargo_stylus.Trace.Cursor.Laws.{
  at, read_laws, read_u32_outs, get_hex_lem, get_string_lem, get_int_lem, address_from_slice_lem,
  get_hex_missing,
}
use cargo_stylus.Trace.Print.{
  FitsKind, FitsFrame, FitsHostio, FitsSteps, print_hostio, hex_value, args_of, outs_of,
  call_members, frame_members, print_steps, traced_name, evm_step, append_values,
}
use cargo_stylus.Trace.Print.Facts.{arm_of-traced_name, args_of-IsBytes, outs_of-IsBytes}
use cargo_stylus.Trace.Parse.{
  load, assert_consumed, frame, read_kind, select_kind, parse_step, parse_steps, parse_array,
  parse_frame,
}

module _ (H : Codec) (nested : Option Bytes → Value → Outcome TraceError TraceFrame) where
  -- The nested parse reads a frame back.
  abbrev ReadsFrame : TraceFrame → Type 0
  ReadsFrame sub = nested (address_of sub) (Value.array (print_steps H (steps_of sub))) ≡ ok sub

  abbrev ReadsKind : HostioKind → Type 0
  ReadsKind (HostioKind.call_contract _ _ _ _ _ _ sub) = ReadsFrame sub
  ReadsKind (HostioKind.delegate_call_contract _ _ _ _ _ sub) = ReadsFrame sub
  ReadsKind (HostioKind.static_call_contract _ _ _ _ _ sub) = ReadsFrame sub
  ReadsKind (HostioKind.evm_call _ sub) = ReadsFrame sub
  ReadsKind _ = Unit

  frame-frame_members :
      (sub : TraceFrame) (x y : Bytes)
      → FitsFrame sub
      → ReadsFrame sub
      → frame H nested (at (frame_members H sub) x y) ≡ ok (sub, at end x y)
  unfolding frame ◌>>=◌ lift frame_members remove take_key
  frame-frame_members (trace_frame steps none) x y h r = absurd h.0
  frame-frame_members (trace_frame steps (some a)) x y h r =
      rw (get_hex_lem H "address" (frame_members H (trace_frame steps (some a))) x y a refl h.0.1)
        (rw (address_from_slice_lem a h.0.0) (rw r))

  read_kind-args_of :
      (k : HostioKind)
      → FitsKind k
      → ReadsKind k
      → read_kind H nested
          (traced_name k)
          (variant_of k)
          (at (call_members H k) (args_of k) (outs_of k))
        ≡ ok (k, at end [] [])
  unfolding read_kind ◌>>=◌ pure args_of outs_of call_members variant_of traced_name
  read_kind-args_of (HostioKind.user_entrypoint _) h r = simp (read_laws, h)
  read_kind-args_of (HostioKind.user_returned _) h r = simp (read_laws, h)
  read_kind-args_of (HostioKind.read_args _) h r = simp (read_laws)
  read_kind-args_of (HostioKind.write_result _) h r = simp (read_laws)
  read_kind-args_of (HostioKind.exit_early _) h r = simp (read_laws, h)
  read_kind-args_of (HostioKind.storage_load_bytes32 _ _) h r = simp (read_laws, h.0, h.1)
  read_kind-args_of (HostioKind.storage_cache_bytes32 _ _) h r = simp (read_laws, h.0, h.1)
  read_kind-args_of (HostioKind.storage_flush_cache _) h r = simp (read_laws, h)
  read_kind-args_of (HostioKind.transient_load_bytes32 _ _) h r = simp (read_laws, h.0, h.1)
  read_kind-args_of (HostioKind.transient_store_bytes32 _ _) h r = simp (read_laws, h.0, h.1)
  read_kind-args_of (HostioKind.account_balance _ _) h r = simp (read_laws, h.0, h.1)
  read_kind-args_of (HostioKind.account_code _ _ _ _) h r = simp (read_laws, h.0, h.1, h.2)
  read_kind-args_of (HostioKind.account_code_size _ _) h r = simp (read_laws, h.0, h.1)
  read_kind-args_of (HostioKind.account_codehash _ _) h r = simp (read_laws, h.0, h.1)
  read_kind-args_of (HostioKind.block_basefee _) h r = simp (read_laws, h)
  read_kind-args_of (HostioKind.block_coinbase _) h r = simp (read_laws, h)
  read_kind-args_of (HostioKind.block_gas_limit _) h r = simp (read_laws, h)
  read_kind-args_of (HostioKind.block_number _) h r = simp (read_laws, h)
  read_kind-args_of (HostioKind.block_timestamp _) h r = simp (read_laws, h)
  read_kind-args_of (HostioKind.chainid _) h r = simp (read_laws, h)
  read_kind-args_of (HostioKind.contract_address _) h r = simp (read_laws, h)
  read_kind-args_of (HostioKind.evm_gas_left _) h r = simp (read_laws, h)
  read_kind-args_of (HostioKind.evm_ink_left _) h r = simp (read_laws, h)
  read_kind-args_of (HostioKind.pay_for_memory_grow _) h r = simp (read_laws, h)
  read_kind-args_of (HostioKind.math_div _ _ _) h r = simp (read_laws, h.0, h.1, h.2)
  read_kind-args_of (HostioKind.math_mod _ _ _) h r = simp (read_laws, h.0, h.1, h.2)
  read_kind-args_of (HostioKind.math_pow _ _ _) h r = simp (read_laws, h.0, h.1, h.2)
  read_kind-args_of (HostioKind.math_add_mod _ _ _ _) h r = simp (read_laws, h.0, h.1, h.2, h.3)
  read_kind-args_of (HostioKind.math_mul_mod _ _ _ _) h r = simp (read_laws, h.0, h.1, h.2, h.3)
  read_kind-args_of (HostioKind.msg_reentrant true) h r = rw (read_u32_outs end 1 [] refl)
  read_kind-args_of (HostioKind.msg_reentrant false) h r = rw (read_u32_outs end 0 [] refl)
  read_kind-args_of (HostioKind.msg_sender _) h r = simp (read_laws, h)
  read_kind-args_of (HostioKind.msg_value _) h r = simp (read_laws, h)
  read_kind-args_of (HostioKind.native_keccak256 _ _) h r = simp (read_laws, h.1)
  read_kind-args_of (HostioKind.tx_gas_price _) h r = simp (read_laws, h)
  read_kind-args_of (HostioKind.tx_ink_price _) h r = simp (read_laws, h)
  read_kind-args_of (HostioKind.tx_origin _) h r = simp (read_laws, h)
  read_kind-args_of (HostioKind.console_log _) h r = absurd h
  read_kind-args_of (HostioKind.console_log_text _) h r = simp (read_laws)
  read_kind-args_of (HostioKind.call_contract _ _ _ _ _ _ sub) h r =
      simp (read_laws, h.0, h.1, h.2, h.4, h.5) (rw (frame-frame_members sub [] [] h.6 r))
  read_kind-args_of (HostioKind.delegate_call_contract _ _ _ _ _ sub) h r =
      simp (read_laws, h.0, h.1, h.3, h.4) (rw (frame-frame_members sub [] [] h.5 r))
  read_kind-args_of (HostioKind.static_call_contract _ _ _ _ _ sub) h r =
      simp (read_laws, h.0, h.1, h.3, h.4) (rw (frame-frame_members sub [] [] h.5 r))
  read_kind-args_of (HostioKind.create1 _ _ _ _) h r = simp (read_laws, h.0, h.2, h.3)
  read_kind-args_of (HostioKind.create2 _ _ _ _ _) h r = simp (read_laws, h.0, h.1, h.3, h.4)
  read_kind-args_of (HostioKind.emit_log _ _) h r = simp (read_laws, h.0)
  read_kind-args_of (HostioKind.read_return_data _ _ _) h r = simp (read_laws, h.0, h.1)
  read_kind-args_of (HostioKind.return_data_size _) h r = simp (read_laws, h)
  read_kind-args_of (HostioKind.evm_call _ sub) h r = rw (frame-frame_members sub [] [] h.1 r)

  parse_steps-nil : parse_steps H nested Values.nil ≡ ok no_steps
  unfolding parse_steps
  parse_steps-nil = refl

  -- A printed step parses to the host call.
  parse_steps-print_hostio :
      (kind : HostioKind) (start_ink end_ink : ℕ) (rest : Values)
      → FitsKind kind
      → ReadsKind kind
      → parse_steps H nested (Values.cons (print_hostio H (hostio kind start_ink end_ink)) rest)
        ≡ Outcome.◌>>=◌
            (parse_steps H nested rest)
            (λ steps. ok (push_step (hostio kind start_ink end_ink) steps))
  unfolding parse_steps parse_step select_kind load assert_consumed print_hostio ◌>>=◌ lift pure
      remove
  parse_steps-print_hostio kind start_ink end_ink rest h r =
      let m4 : Members = call_members H kind in
      let m3 : Members = member "endInk" (Value.number (some end_ink)) m4 in
      let m2 : Members = member "startInk" (Value.number (some start_ink)) m3 in
      let m1 : Members = member "outs" (hex_value H (outs_of kind)) m2 in
      let m0 : Members = member "args" (hex_value H (args_of kind)) m1 in
      rw
        (get_string_lem "name" (member "name" (Value.string (traced_name kind)) m0) [] []
          (traced_name kind) refl)
        (rw (get_hex_lem H "args" m0 [] [] (args_of kind) refl (args_of-IsBytes kind h)) (
          rw (get_hex_lem H "outs" m1 [] [] (outs_of kind) refl (outs_of-IsBytes kind h)) (
            rw (get_int_lem "startInk" m2 [] [] start_ink refl) (
              rw (get_int_lem "endInk" m3 [] [] end_ink refl)
                (rw (arm_of-traced_name kind h) (rw (read_kind-args_of kind h r) refl))))))

module _ (H : Codec) where
  mutual
    unfolding parse_frame parse_array print_hostio depth

    reads_kind :
        (kind : HostioKind) (fuel : ℕ)
        → FitsKind kind
        → depth_members (call_members H kind) ≤ fuel
        → ReadsKind H (parse_frame H fuel) kind
    reads_kind (HostioKind.call_contract _ _ _ _ _ _ sub) fuel f d = reads_frame sub fuel f.6 d
    reads_kind (HostioKind.delegate_call_contract _ _ _ _ _ sub) fuel f d =
        reads_frame sub fuel f.5 d
    reads_kind (HostioKind.static_call_contract _ _ _ _ _ sub) fuel f d = reads_frame sub fuel f.5 d
    reads_kind (HostioKind.evm_call _ sub) fuel f d = reads_frame sub fuel f.1 d
    reads_kind _ fuel f d = tt

    reads_frame :
        (sub : TraceFrame) (fuel : ℕ)
        → FitsFrame sub
        → depth_members (frame_members H sub) ≤ fuel
        → ReadsFrame H (parse_frame H fuel) sub
    reads_frame (trace_frame steps address) zero f d = absurd (omega arith)
    reads_frame (trace_frame steps address) (suc fuel) f d =
        rw (reads_steps steps fuel f.1 (omega arith)) refl

    reads_hostio :
        (h : Hostio) (fuel : ℕ) (rest : Values)
        → FitsHostio h
        → depth (print_hostio H h) ≤ fuel
        → parse_steps H (parse_frame H fuel) (Values.cons (print_hostio H h) rest)
          ≡ Outcome.◌>>=◌
              (parse_steps H (parse_frame H fuel) rest)
              (λ steps. ok (push_step h steps))
    reads_hostio (hostio kind start_ink end_ink) fuel rest f d =
        parse_steps-print_hostio H (parse_frame H fuel) kind start_ink end_ink rest f
          (reads_kind kind fuel f (omega arith))

    reads_steps :
        (steps : Steps) (fuel : ℕ)
        → FitsSteps steps
        → depth_values (print_steps H steps) ≤ fuel
        → parse_steps H (parse_frame H fuel) (print_steps H steps) ≡ ok steps
    reads_steps no_steps fuel f d = parse_steps-nil H (parse_frame H fuel)
    reads_steps (push_step h rest) fuel f d =
        rw (reads_hostio h fuel (print_steps H rest) f.0 (omega arith))
          (rw (reads_steps rest fuel f.1 (omega arith)) refl)

module _ (H : Codec) where
  parse_steps-evm_step :
      (fuel : ℕ) (address name : String) (inner rest : Values)
      → parse_steps H (parse_frame H fuel) (Values.cons (evm_step address inner name) rest)
        ≡ err (missing "args")
  unfolding parse_steps parse_step ◌>>=◌ remove
  parse_steps-evm_step fuel address name inner rest =
      let left : Members =
        member "address" (Value.string address) (member "steps" (Value.array inner) end) in
      rw
        (get_string_lem "name"
          (member "address" (Value.string address)
            (member "steps" (Value.array inner) (member "name" (Value.string name) end)))
          [] [] name refl)
        (rw (get_hex_missing H "args" left [] [] refl) refl)

  parse_steps-behind :
      (steps : Steps) (fuel : ℕ) (address name : String) (inner rest : Values)
      → FitsSteps steps
      → depth_values (print_steps H steps) ≤ fuel
      → parse_steps H
          (parse_frame H fuel)
          (append_values (print_steps H steps) (Values.cons (evm_step address inner name) rest))
        ≡ err (missing "args")
  unfolding append_values print_steps depth
  parse_steps-behind no_steps fuel address name inner rest f d =
      parse_steps-evm_step fuel address name inner rest
  parse_steps-behind (push_step h more) fuel address name inner rest f d =
      rw
        (reads_hostio H h fuel
          (append_values (print_steps H more) (Values.cons (evm_step address inner name) rest)) f.0
          (omega arith))
        (rw (parse_steps-behind more fuel address name inner rest f.1 (omega arith)) refl)

-- A trace in which every step has a name, the bytes of its arguments and results and its ink, and
-- every call the address and the steps of its frame, with fields in range at every level of nesting
-- and no `ConsoleLog`, is parsed to the frame that it was written from, whatever the address of the
-- frame, if the fuel is at least the depth of the trace. If behind its steps there is one that has
-- an address, steps and a name only, as main/src/query.js reports the calls of EVM contracts, the
-- trace is refused, since `args` is missing.
pub parse_frame-print_steps :
    (H : Codec) (steps : Steps) (address : Option Bytes) (fuel : ℕ)
    → FitsSteps steps
    → depth (Value.array (print_steps H steps)) ≤ fuel
    → (parse_frame H fuel address (Value.array (print_steps H steps))
        ≡ ok (trace_frame steps address))
      × ((callee name : String) (inner rest : Values)
          → parse_frame H fuel address (
              Value.array (
                append_values
                  (print_steps H steps)
                  (Values.cons (evm_step callee inner name) rest)))
            ≡ err (missing "args"))
unfolding parse_frame parse_array depth
parse_frame-print_steps H steps address zero f d = absurd (omega arith)
parse_frame-print_steps H steps address (suc fuel) f d = (
  rw (reads_steps H steps fuel f (omega arith)) refl,
  λ callee name inner rest.
      rw (parse_steps-behind H steps fuel callee name inner rest f (omega arith)) refl,
)
