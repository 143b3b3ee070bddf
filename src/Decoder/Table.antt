-- ===== src/Decoder/Table.antt =====
-- `DecoderImpl::initialize`: which message class and which actions belong to a message's first byte.
use postgres_tde.Base.{Bool, List, [], if◌then◌else◌, ℕ, ◌==◌, ◌∷◌}
use postgres_tde.Message.Format.{Fmt, int, string, byte_n, var_byte_n, array, repeated, done, seq}
use postgres_tde.Protocol.{
  MsgClass, query_message, parse_message, row_description_message, data_row_message,
  command_complete_message, empty_query_response_message, error_response_message,
  ready_for_query_message, untyped,
}

-- The methods that `initialize` names as actions.
pub data MsgAction : Type 0 where
  on_query on_row_description on_data_row on_command_complete on_empty_query_response : MsgAction
  on_error_response on_parse : MsgAction

-- `MessageProcessor`, without the text for the log.
pub record MessageProcessor : Type 0 where
  pub factory : MsgClass
  pub actions : List MsgAction

abbrev pub no_action : MsgClass → MessageProcessor
no_action k = record { factory = k; actions = [] }

abbrev pub one_action : MsgClass → MsgAction → MessageProcessor
one_action k a = record { factory = k; actions = a ∷ [] }

-- `BODY_FORMAT(...)` for one to five types, and `NO_BODY`.
abbrev pub body_1 : Fmt → MsgClass
body_1 a = untyped (seq a done)

abbrev pub body_2 : Fmt → Fmt → MsgClass
body_2 a b = untyped (seq a (seq b done))

abbrev pub body_3 : Fmt → Fmt → Fmt → MsgClass
body_3 a b c = untyped (seq a (seq b (seq c done)))

abbrev pub no_body : MsgClass
no_body = untyped done

abbrev pub startup_msg_processor : MessageProcessor
startup_msg_processor = no_action (body_2 (int 4) (repeated string))

abbrev pub unknown_msg_processor : MessageProcessor
unknown_msg_processor = no_action (body_1 byte_n)

-- Known messages of the frontend.
abbrev pub fe_known_msgs : List (ℕ × MessageProcessor)
fe_known_msgs =
    (
      b'B',
      no_action (
          untyped (
            seq string (
              seq string
                (seq (array (int 2)) (seq (array var_byte_n) (seq (array (int 2)) done)))))),
    )
    ∷ (b'C', no_action (body_2 (int 1) string))
    ∷ (b'd', no_action (body_1 byte_n))
    ∷ (b'c', no_action no_body)
    ∷ (b'f', no_action (body_1 string))
    ∷ (b'D', no_action (body_2 (int 1) string))
    ∷ (b'E', no_action (body_2 string (int 4)))
    ∷ (b'H', no_action no_body)
    ∷ (
      b'F',
      no_action
          (untyped (seq (int 4) (seq (array (int 2)) (seq (array var_byte_n) (seq (int 2) done))))),
    )
    ∷ (b'p', no_action (body_2 (int 4) byte_n))
    ∷ (b'P', one_action parse_message on_parse)
    ∷ (b'Q', one_action query_message on_query)
    ∷ (b'S', no_action no_body)
    ∷ (b'X', no_action no_body)
    ∷ []

-- Known messages of the backend.
abbrev pub be_known_msgs : List (ℕ × MessageProcessor)
be_known_msgs =
    (b'R', no_action (body_1 byte_n))
    ∷ (b'K', no_action (body_2 (int 4) (int 4)))
    ∷ (b'2', no_action no_body)
    ∷ (b'3', no_action no_body)
    ∷ (b'C', one_action command_complete_message on_command_complete)
    ∷ (b'd', no_action (body_1 byte_n))
    ∷ (b'c', no_action no_body)
    ∷ (b'G', no_action (body_2 (int 1) (array (int 2))))
    ∷ (b'H', no_action (body_2 (int 1) (array (int 2))))
    ∷ (b'W', no_action (body_2 (int 1) (array (int 2))))
    ∷ (b'D', one_action data_row_message on_data_row)
    ∷ (b'I', one_action empty_query_response_message on_empty_query_response)
    ∷ (b'E', one_action error_response_message on_error_response)
    ∷ (b'V', no_action (body_1 var_byte_n))
    ∷ (b'v', no_action (body_1 byte_n))
    ∷ (b'n', no_action no_body)
    ∷ (b'N', no_action (body_1 byte_n))
    ∷ (b'A', no_action (body_3 (int 4) string string))
    ∷ (b't', no_action (body_1 (array (int 4))))
    ∷ (b'S', no_action (body_2 string string))
    ∷ (b'1', no_action no_body)
    ∷ (b's', no_action no_body)
    ∷ (b'Z', no_action ready_for_query_message)
    ∷ (b'T', one_action row_description_message on_row_description)
    ∷ []

-- `messages_.find(command_)`, with the handler of unknown messages where there is no entry.
unfoldable pub find_processor : ℕ → List (ℕ × MessageProcessor) → MessageProcessor
find_processor command [] = unknown_msg_processor
find_processor command ((c, p) ∷ rest) = if c == command then p else find_processor command rest

-- `frontend ? FE_messages_ : BE_messages_`.
abbrev pub message_group : Bool → List (ℕ × MessageProcessor)
message_group frontend = if frontend then fe_known_msgs else be_known_msgs
