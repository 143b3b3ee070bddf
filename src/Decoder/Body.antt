-- ===== src/Decoder/Body.antt =====
-- postgres_decoder.cc: `processMessageBody` and what it calls.
use postgres_tde.Base.{
  Bool, List, Option, [], if◌then◌else◌, none, some, true, ℕ, ◌%◌, ◌+◌, ◌-◌, ◌==◌, ◌^◌, ◌∷◌,
}
use mathlib.Core.Option
use postgres_tde.Buffer.{Buffer}
use postgres_tde.Message.Format.{Val}
use postgres_tde.Protocol.{
  MsgClass, query_message, parse_message, row_description_message, data_row_message,
  command_complete_message, empty_query_response_message, error_response_message, body, Message,
  message, read_message, write_typed,
}
use postgres_tde.Decoder.Table.{
  MsgAction, on_query, on_row_description, on_data_row, on_command_complete,
  on_empty_query_response, on_error_response, on_parse, MessageProcessor,
}
use postgres_tde.Decoder.State.{Decoder, Handler, Callbacks}

-- `uint32_t` subtraction, as in `message_len - 4`.
abbrev pub sub32 : ℕ → ℕ → ℕ
sub32 a b = (a + 2 ^ 32 - b) % 2 ^ 32

abbrev pub max_startup_packet_length : ℕ
max_startup_packet_length = 10000

abbrev pub ssl_request_code : ℕ
ssl_request_code = 0x04d2162f

abbrev pub no_command : ℕ
no_command = b'-'

abbrev pub first_byte : List ℕ → ℕ
first_byte [] = 0
first_byte (b ∷ bs) = b

-- `dynamic_unique_cast<T>(std::move(replacement_message_))`: null unless the message has the class.
unfoldable pub cast_query : Message → Option (Val (body query_message))
cast_query (message query_message v) = some v
cast_query _ = none

unfoldable pub cast_parse : Message → Option (Val (body parse_message))
cast_parse (message parse_message v) = some v
cast_parse _ = none

unfoldable pub cast_row_description : Message → Option (Val (body row_description_message))
cast_row_description (message row_description_message v) = some v
cast_row_description _ = none

unfoldable pub cast_data_row : Message → Option (Val (body data_row_message))
cast_data_row (message data_row_message v) = some v
cast_data_row _ = none

unfoldable pub cast_command_complete : Message → Option (Val (body command_complete_message))
cast_command_complete (message command_complete_message v) = some v
cast_command_complete _ = none

unfoldable pub cast_empty_query_response :
    Message → Option (Val (body empty_query_response_message))
cast_empty_query_response (message empty_query_response_message v) = some v
cast_empty_query_response _ = none

unfoldable pub cast_error_response : Message → Option (Val (body error_response_message))
cast_error_response (message error_response_message v) = some v
cast_error_response _ = none

module _ (io : Buffer) {M : Type 0} (cb : Callbacks (Buffer.Buf io) M) where
  open io use {Buf, size, peek_be, copy_out, drain, move_front, append, add, write_be, empty}

  -- `emitBackendMessage`, which asserts that the message is writeable.
  unfoldable pub emit_backend_message : Option Message → Decoder Buf → Decoder Buf
  emit_backend_message none d = record d { fault = true }
  emit_backend_message (some m) d = elim (write_typed io m d.backend_replacement_data) [
    | none ↦ d
    | some to ↦ record d { backend_replacement_data = to }
  ]

  unfoldable pub emit_all : List (Option Message) → Decoder Buf → Decoder Buf
  unfolding emit_backend_message
  emit_all [] d = d
  emit_all (m ∷ ms) d = emit_all ms (emit_backend_message m d)

  -- `onQuery` and the like: cast, hand over, and keep the message unless the callee took it.
  unfoldable pub hand_over :
      (k : MsgClass) → Option (Val (body k)) → Handler M k → Decoder Buf → M → Decoder Buf × M
  unfolding emit_all
  hand_over k none handler d m = (record d { replacement_message = none }, m)
  hand_over k (some v) handler d m =
      let h = handler v m in
      (
        record (emit_all h.emitted d) { replacement_message = Option.map (message k) h.kept },
        h.after,
      )

  unfoldable pub run_action : MsgAction → Message → Decoder Buf → M → Decoder Buf × M
  unfolding hand_over cast_query cast_parse cast_row_description cast_data_row cast_command_complete
      cast_empty_query_response cast_error_response
  run_action on_query r d m = hand_over query_message (cast_query r) cb.process_query d m
  run_action on_parse r d m = hand_over parse_message (cast_parse r) cb.process_parse d m
  run_action on_row_description r d m =
      hand_over row_description_message (cast_row_description r) cb.process_row_description d m
  run_action on_data_row r d m =
      hand_over data_row_message (cast_data_row r) cb.process_data_row d m
  run_action on_command_complete r d m =
      hand_over command_complete_message (cast_command_complete r) cb.process_command_complete d m
  run_action on_empty_query_response r d m =
      hand_over empty_query_response_message (cast_empty_query_response r)
        cb.process_empty_query_response d m
  run_action on_error_response r d m =
      hand_over error_response_message (cast_error_response r) cb.process_error_response d m

  -- The loop over the actions. No processor has a second action, which would be called with no
  -- message if the first had taken it; the loop stops there.
  unfoldable pub run_actions : List MsgAction → Decoder Buf → M → Decoder Buf × M
  unfolding run_action
  run_actions [] d m = (d, m)
  run_actions (a ∷ as_) d m = elim d.replacement_message [
    | none ↦ (d, m)
    | some r ↦ let next = run_action a r d m in run_actions as_ next.0 next.1
  ]

  -- The old message: its first byte, unless `command_` is '-', its length and its body.
  unfoldable pub write_old : ℕ → Buf → Buf → Buf
  write_old command message_data to =
      let named = if command == no_command then to else write_be 1 command to in
      append (write_be 4 (size message_data + 4) named) message_data

  unfoldable pub write_back : Message → ℕ → Buf → Buf → Buf
  unfolding write_old
  write_back r command message_data to = elim (write_typed io r to) [
    | some written ↦ written
    | none ↦ write_old command message_data to
  ]

  unfoldable pub write_replacement : Bool → Buf → Decoder Buf → Decoder Buf
  unfolding write_back
  write_replacement frontend message_data d = elim d.replacement_message [
    | none ↦ d
    | some r ↦
        if frontend
        then record d {
          frontend_replacement_data =
              write_back r d.command message_data d.frontend_replacement_data;
        }
        else record d {
          backend_replacement_data = write_back r d.command message_data d.backend_replacement_data;
        }
  ]

  -- `processMessageBody` behind `replacement_message_`, which `r` is.
  unfoldable pub process_message_body :
      Buf → Bool → MessageProcessor → Message → Decoder Buf → M → Decoder Buf × M
  unfolding run_actions write_replacement
  process_message_body message_data frontend processor r d m =
      let read = record d {
        replacement_message = some (read_message io r message_data (size message_data));
      } in
      let acted = run_actions processor.actions read m in
      (write_replacement frontend message_data acted.0, acted.1)

  -- The end of `onDataInit` and `onDataInSync`: drop the header, take the body, process it.
  unfoldable pub consume :
      ℕ → ℕ → Bool → MessageProcessor → Message → Buf → Decoder Buf → M → Buf × Decoder Buf × M
  unfolding process_message_body
  consume header len frontend processor r data_ d m =
      let moved = move_front len (drain header data_) in
      let (d', m') = process_message_body moved.0 frontend processor r d m in (moved.1, d', m')
