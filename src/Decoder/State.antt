-- ===== src/Decoder/State.antt =====
-- The decoder's fields, and the interface through which it calls the filter.
use postgres_tde.Base.{Bool, List, Option, ℕ}
use postgres_tde.Message.Format.{Val}
use postgres_tde.Protocol.{
  MsgClass, query_message, parse_message, row_description_message, data_row_message,
  command_complete_message, empty_query_response_message, error_response_message, body, Message,
}

-- `DecoderImpl::State`.
pub data State : Type 0 where
  init_state in_sync_state out_of_sync_state encrypted_state negotiating_upstream_ssl : State

-- `Decoder::Result`.
pub data Result : Type 0 where
  ready_for_next need_more_data stopped : Result

-- The fields of `DecoderImpl` that change, and a mark: `fault` is set when a null message is
-- dereferenced, which ends the program; what the model says behind that means nothing.
pub record Decoder (Buf : Type 0) : Type 0 where
  pub state : State
  pub command : ℕ
  pub replacement_message : Option Message
  pub frontend_replacement_data : Buf
  pub backend_replacement_data : Buf
  pub temp_storage : Buf
  pub encrypted : Bool
  pub fault : Bool

-- What a call of `process...(std::unique_ptr<T>&)` leaves: the message, unless it was reset or
-- moved away, the messages given to `emitBackendMessage` meanwhile, in order, and the state of the
-- callee.
pub record Handled (A : Type 0) (M : Type 0) : Type 0 where
  pub kept : Option A
  pub emitted : List (Option Message)
  pub after : M

abbrev pub Handler : Type 0 → MsgClass → Type 0
Handler M k = Val (body k) → M → Handled (Val (body k)) M

-- `class DecoderCallbacks`, for callees with a state `M`.
pub record Callbacks (Buf : Type 0) (M : Type 0) : Type 0 where
  pub process_query : Handler M query_message
  pub process_parse : Handler M parse_message
  pub process_row_description : Handler M row_description_message
  pub process_data_row : Handler M data_row_message
  pub process_command_complete : Handler M command_complete_message
  pub process_empty_query_response : Handler M empty_query_response_message
  pub process_error_response : Handler M error_response_message
  pub on_ssl_request : M → Bool × M
  pub should_encrypt_upstream : M → Bool
  pub send_upstream : Buf → M → M
  pub encrypt_upstream : Bool → Buf → M → Bool × Buf × M

-- What a call of `onData` leaves: its result, the data buffer, the decoder and the callee.
pub record Outcome (Buf : Type 0) (M : Type 0) : Type 0 where
  pub result : Result
  pub input : Buf
  pub decoder : Decoder Buf
  pub callee : M
