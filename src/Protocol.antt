-- ===== src/Protocol.antt =====
-- postgres_tde/source/filters/network/postgres_tde/postgres_protocol.h and .cc: the messages that
-- the filter changes, and the message objects of postgres_message.h (`MessageImpl`,
-- `TypedMessage`).
use postgres_tde.Base.{List, Option, [], none, some, ℕ, ◌∷◌}
use mathlib.Core.Option
use postgres_tde.Buffer.{Buffer}
use postgres_tde.Message.Format.{
  Fmt, int, string, var_byte_n, array, repeated, done, seq, Val, Str, ValidationResult, fresh,
}
use postgres_tde.Message.Validate.{validate}
use postgres_tde.Message.Read.{read}
use postgres_tde.Message.Write.{write_message}

-- The classes of messages: those with a name of their own, and `MessageImpl<Types...>`.
pub data MsgClass : Type 0 where
  query_message parse_message row_description_message data_row_message : MsgClass
  command_complete_message empty_query_response_message error_response_message : MsgClass
  ready_for_query_message : MsgClass
  untyped : Fmt → MsgClass

-- `class ColumnDescription`.
abbrev pub column_description : Fmt
column_description =
    seq string
      (seq (int 4) (seq (int 2) (seq (int 4) (seq (int 2) (seq (int 4) (seq (int 2) done))))))

-- The fields of a class.
abbrev pub body : MsgClass → Fmt
body query_message = seq string done
body parse_message = seq string (seq string (seq (array (int 4)) done))
body row_description_message = seq (array column_description) done
body data_row_message = seq (array var_byte_n) done
body command_complete_message = seq string done
body empty_query_response_message = done
body error_response_message = seq (repeated (seq (int 1) (seq string done))) (seq (int 1) done)
body ready_for_query_message = seq (int 1) done
body (untyped f) = f

-- The `Identifier` of a `TypedMessage`.
abbrev pub identifier : MsgClass → Option ℕ
identifier query_message = some b'Q'
identifier parse_message = some b'P'
identifier row_description_message = some b'T'
identifier data_row_message = some b'D'
identifier command_complete_message = some b'C'
identifier empty_query_response_message = some b'I'
identifier error_response_message = some b'E'
identifier ready_for_query_message = some b'Z'
identifier (untyped f) = none

-- `MessagePtr`, not null.
pub data Message : Type 0 where
  message : (k : MsgClass) → Val (body k) → Message

-- `createMsgBodyReader` and the factories of the typed messages.
abbrev pub new_message : MsgClass → Message
new_message k = message k (fresh (body k))

pub class_of : Message → MsgClass
class_of (message k v) = k

abbrev pub str : List ℕ → Str
str text = record { start = 0; end = 0; value = text }

-- `createReadyForQueryMessage`.
unfoldable pub create_ready_for_query_message : Message
create_ready_for_query_message = message ready_for_query_message (b'I', tt)

-- `"ERROR"`.
abbrev pub severity : List ℕ
severity = b'E' ∷ b'R' ∷ b'R' ∷ b'O' ∷ b'R' ∷ []

-- `createErrorResponseMessage`.
unfoldable pub create_error_response_message : List ℕ → Message
create_error_response_message error =
    message error_response_message
      ((b'S', (str severity, tt)) ∷ (b'M', (str error, tt)) ∷ [], (0, tt))

module _ (io : Buffer) where
  open io use {Buf}

  -- `MessageImpl::validate`: the result, and the message as the call leaves it.
  unfoldable pub validate_message : Message → Buf → ℕ → ℕ → ValidationResult × Message
  validate_message (message k v) data_ start_pos len =
      let r = validate io (body k) data_ start_pos (record { pos = start_pos; left = len }) in
      (r.result, message k r.object)

  -- `MessageImpl::read`, whose result the decoder does not use.
  unfoldable pub read_message : Message → Buf → ℕ → Message
  read_message (message k v) data_ len =
      message k (read io (body k) v data_ (record { pos = 0; left = len })).object

  -- `Message::write` behind `isWriteable`: nothing for a message with no identifier.
  unfoldable pub write_typed : Message → Buf → Option Buf
  write_typed (message k v) to = Option.map (λ c. write_message io (body k) v c to) (identifier k)
