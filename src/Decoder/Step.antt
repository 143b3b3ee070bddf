-- ===== src/Decoder/Step.antt =====
-- postgres_decoder.cc: `onData` and the handlers that it dispatches to.
use postgres_tde.Base.{Bool, false, if◌then◌else◌, leb, ltb, some, true, ℕ, ◌==◌}
use postgres_tde.Buffer.{Buffer}
use postgres_tde.Message.Format.{
  ValidationResult, validation_failed, validation_ok, validation_need_more_data,
}
use postgres_tde.Protocol.{Message, new_message, validate_message}
use postgres_tde.Decoder.Table.{
  MessageProcessor, startup_msg_processor, find_processor, message_group,
}
use postgres_tde.Decoder.State.{
  State, init_state, in_sync_state, out_of_sync_state, encrypted_state, negotiating_upstream_ssl,
  Result, ready_for_next, need_more_data, stopped, Decoder, Callbacks, Outcome,
}
use postgres_tde.Decoder.Body.{
  sub32, max_startup_packet_length, ssl_request_code, first_byte, consume,
}

module _ (io : Buffer) {M : Type 0} (cb : Callbacks (Buffer.Buf io) M) where
  open io use {Buf, size, peek_be, copy_out, drain, move_front, append, add, write_be, empty}

  abbrev pub lose_sync : Buf → Decoder Buf → M → Outcome Buf M
  lose_sync data_ d m = record {
    result = ready_for_next;
    input = drain (size data_) data_;
    decoder = record d { state = out_of_sync_state };
    callee = m;
  }

  abbrev pub wait_for_data : Buf → Decoder Buf → M → Outcome Buf M
  wait_for_data data_ d m = record {
    result = need_more_data;
    input = data_;
    decoder = d;
    callee = m;
  }

  -- A startup message that asks for encryption: with SSLRequest the callee decides.
  unfoldable pub startup_encrypted : ℕ → Decoder Buf → M → Result × Decoder Buf × M
  startup_encrypted code d m =
      let asked = if code == ssl_request_code then cb.on_ssl_request m else (true, m) in
      if asked.0
      then (ready_for_next, record d { encrypted = true; state = encrypted_state }, asked.1)
      else (stopped, record d { encrypted = false }, asked.1)

  -- Eight bytes: the length and the code of an SSLRequest.
  abbrev pub ssl_request : Buf
  ssl_request = write_be 4 ssl_request_code (write_be 4 8 empty)

  unfoldable pub startup_plain : Buf → Decoder Buf → M → Result × Decoder Buf × M
  startup_plain data_ d m =
      if cb.should_encrypt_upstream m
      then (
        stopped,
        record d {
          temp_storage = add (copy_out data_ 0 (size data_)) d.temp_storage;
          state = negotiating_upstream_ssl;
        },
        cb.send_upstream ssl_request m,
      )
      else (ready_for_next, record d { state = in_sync_state }, m)

  unfoldable pub startup : ℕ → Message → Buf → Decoder Buf → M → Outcome Buf M
  unfolding startup_encrypted startup_plain consume
  startup len r data_ d m =
      let code = peek_be 4 data_ 4 in
      let (result, d₁, m₁) =
        if leb 0x04d20000 code then startup_encrypted code d m else startup_plain data_ d m in
      let (rest, d₂, m₂) = consume io cb 4 len true startup_msg_processor r data_ d₁ m₁ in
      record { result = result; input = rest; decoder = d₂; callee = m₂ }

  -- `onDataInit` behind the validation.
  unfoldable pub init_validated :
      ValidationResult × Message → ℕ → Buf → Decoder Buf → M → Outcome Buf M
  unfolding startup
  init_validated (validation_need_more_data, r) len data_ d m = wait_for_data data_ d m
  init_validated (validation_failed, r) len data_ d m = lose_sync data_ d m
  init_validated (validation_ok, r) len data_ d m = startup len r data_ d m

  -- `onDataInit` behind its length tests; `len` is `message_len - 4`.
  unfoldable pub init_message : ℕ → Buf → Decoder Buf → M → Outcome Buf M
  unfolding init_validated
  init_message len data_ d m =
      let validated = validate_message io (new_message startup_msg_processor.factory) data_ 4 len in
      init_validated validated len data_ (record d { replacement_message = some validated.1 }) m

  unfoldable pub on_data_init : Buf → Decoder Buf → M → Outcome Buf M
  unfolding init_message
  on_data_init data_ d m =
      let len = peek_be 4 data_ 0 in
      if ltb (size data_) 4
      then wait_for_data data_ d m
      else if ltb max_startup_packet_length len
      then lose_sync data_
          (record d { replacement_message = some (new_message startup_msg_processor.factory) }) m
      else init_message (sub32 len 4) data_ d m

  -- `onDataInSync` behind the choice of the processor; `len` is `message_len - 4`.
  unfoldable pub sync_message : MessageProcessor → ℕ → Bool → Buf → Decoder Buf → M → Outcome Buf M
  unfolding consume
  sync_message processor len frontend data_ d m =
      let validated = validate_message io (new_message processor.factory) data_ 5 len in
      let d' = record d { replacement_message = some validated.1 } in
      elim validated.0 [
        | validation_need_more_data ↦ wait_for_data data_ d' m
        | validation_failed ↦ lose_sync data_ d' m
        | validation_ok ↦
            let (rest, d₂, m₂) = consume io cb 5 len frontend processor validated.1 data_ d' m in
            record { result = ready_for_next; input = rest; decoder = d₂; callee = m₂ }
      ]

  unfoldable pub on_data_in_sync : Bool → Buf → Decoder Buf → M → Outcome Buf M
  unfolding sync_message find_processor
  on_data_in_sync frontend data_ d m =
      let command = first_byte (copy_out data_ 0 1) in
      let processor = find_processor command (message_group frontend) in
      if ltb (size data_) 5
      then wait_for_data data_ d m
      else sync_message processor (sub32 (peek_be 4 data_ 1) 4) frontend data_
          (record d { command = command }) m

  unfoldable pub on_data_ignore : Buf → Decoder Buf → M → Outcome Buf M
  on_data_ignore data_ d m = record {
    result = ready_for_next;
    input = drain (size data_) data_;
    decoder = d;
    callee = m;
  }

  -- The answer of the server: the next state, and whether it agreed to use SSL.
  abbrev pub ssl_answer : Buf → State × Bool
  ssl_answer data_ =
      let c = peek_be 1 data_ 0 in
      if size data_ == 1
      then (if c == b'S'
          then (init_state, true)
          else if c == b'E'
          then (init_state, false)
          else (out_of_sync_state, false))
      else (out_of_sync_state, false)

  unfoldable pub on_data_in_negotiating : Bool → Buf → Decoder Buf → M → Outcome Buf M
  on_data_in_negotiating frontend data_ d m =
      let answer = ssl_answer data_ in
      let agreed = cb.encrypt_upstream answer.1 d.temp_storage m in
      if frontend then lose_sync data_ d m else record {
        result = stopped;
        input = drain (size data_) data_;
        decoder = record d {
          temp_storage = agreed.1;
          state = if agreed.0 then in_sync_state else answer.0;
        };
        callee = agreed.2;
      }

  unfoldable pub dispatch : State → Bool → Buf → Decoder Buf → M → Outcome Buf M
  unfolding on_data_init on_data_in_sync on_data_ignore on_data_in_negotiating
  dispatch init_state frontend data_ d m = on_data_init data_ d m
  dispatch out_of_sync_state frontend data_ d m = on_data_ignore data_ d m
  dispatch encrypted_state frontend data_ d m = on_data_ignore data_ d m
  dispatch in_sync_state frontend data_ d m = on_data_in_sync frontend data_ d m
  dispatch negotiating_upstream_ssl frontend data_ d m = on_data_in_negotiating frontend data_ d m

  -- `DecoderImpl::onData`.
  unfoldable pub on_data : Bool → Buf → Decoder Buf → M → Outcome Buf M
  unfolding dispatch
  on_data frontend data_ d m = dispatch d.state frontend data_ d m
