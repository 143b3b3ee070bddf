-- ===== src/Examples/Decoding.antt =====
-- postgres_decoder.cc and postgres_filter.cc at concrete data.
use postgres_tde.Base.{
  List, Option, [], arith, be_value, false, none, refl, some, to_be, true, ℕ, ◌++◌, ◌∷◌, ◌≡◌,
}
use postgres_tde.Filter.New as New
use postgres_tde.Buffer.{list_buffer}
use postgres_tde.Message.Format.{byte_n, seq, done}
use postgres_tde.Protocol.{validate_message}
use postgres_tde.Decoder.State.{
  State, init_state, in_sync_state, out_of_sync_state, negotiating_upstream_ssl, Decoder, Callbacks,
  Outcome, ready_for_next,
}
use postgres_tde.Message.Validate.{validate}
use postgres_tde.Decoder.Table.{find_processor}
use postgres_tde.Decoder.Step.{
  on_data_init, init_message, init_validated, startup, startup_plain, startup_encrypted, on_data,
  dispatch, on_data_in_sync, on_data_ignore,
}
use postgres_tde.Decoder.Body.{no_command, ssl_request_code}
use postgres_tde.Decoder.Frame.{frame}
use postgres_tde.Decoder.PassThrough.{Passed, on_data_passes_untyped}
use postgres_tde.Decoder.Modes.{lost}
use postgres_tde.Filter.Whole.{takes_whole_messages}
use postgres_tde.Filter.Stream.{SameStream, on_read-pieces}
use postgres_tde.Filter.StreamBack.{on_write-pieces}
use postgres_tde.Manager.Mutator.{ok}
use postgres_tde.Manager.State.{Tools}
use postgres_tde.Filter.State.{
  Effect, add_bytes_sent_callback, inject_write, on_ssl_request, require, Config, inject_read,
  upstream_secured, Link, Filter, did, callbacks,
}
use postgres_tde.Filter.Run.{do_decode, on_read, on_write, after_read, after_write}
use postgres_tde.Filter.Decode.{IsSettled, do_decode-ends}
use postgres_tde.Filter.Forwarding.{Startup, on_read_holds_back}
use postgres_tde.Filter.Lost.{Calls, no_call, read_call, write_call, IsLost, Calls-IsLost}
use postgres_tde.Filter.Answer.{startup_sent_if_secured}

-- A manager with no mutators, over queries that are bytes.
abbrev plain_tools : Tools (List ℕ) Unit
plain_tools = record {
  parse = λ q. some q;
  dump = λ q. (ok, q);
  mutator_chain = [];
  permissive_parsing = false;
}

abbrev secure_config : Config (List ℕ)
secure_config = record {
  terminate_ssl = false;
  upstream_ssl = require;
  start_upstream_secure_transport = true;
  left_by_inject = λ b. [];
}

abbrev new_link : Link (List ℕ) Unit
new_link = record {
  manager = record {
    error_state = ok;
    retent_row_description = none;
    retent_rows = [];
    mutators = tt;
  };
  effects = [];
}

abbrev decoder_in : State → List ℕ → Decoder (List ℕ)
decoder_in state stored = record {
  state = state;
  command = no_command;
  replacement_message = none;
  frontend_replacement_data = [];
  backend_replacement_data = [];
  temp_storage = stored;
  encrypted = false;
  fault = false;
}

abbrev cb : Callbacks (List ℕ) (Link (List ℕ) Unit)
cb = callbacks list_buffer plain_tools secure_config

-- A CopyData message of three bytes, and two more bytes.
abbrev copy_data : List ℕ
copy_data = frame b'd' (1 ∷ 2 ∷ 3 ∷ []) ++ 9 ∷ 9 ∷ []

on_data_passes_untyped_example :
    let o = on_data list_buffer cb true copy_data (decoder_in in_sync_state []) new_link in
    (o.result ≡ ready_for_next)
    × Passed list_buffer cb true
        (decoder_in in_sync_state [])
        new_link
        (frame b'd' (1 ∷ 2 ∷ 3 ∷ []))
        (9 ∷ 9 ∷ [])
        o.input
        o.decoder
        o.callee
unfolding on_data dispatch on_data_in_sync on_data_ignore validate_message validate find_processor
    to_be be_value
on_data_passes_untyped_example =
    on_data_passes_untyped list_buffer cb true b'd' (seq byte_n done) (1 ∷ 2 ∷ 3 ∷ []) (9 ∷ 9 ∷ [])
      copy_data (decoder_in in_sync_state []) new_link refl refl (omega arith) (omega arith)
      (λ e. ground (arith, e)) refl refl

do_decode-ends_example :
    (o : Outcome (List ℕ) (Link (List ℕ) Unit)) × (do_decode list_buffer cb 20 true copy_data
        (decoder_in in_sync_state [])
        new_link
      ≡ some o)
    × IsSettled list_buffer cb o
unfolding on_data dispatch on_data_in_sync on_data_ignore validate_message validate find_processor
    to_be be_value
do_decode-ends_example =
    do_decode-ends list_buffer cb 20 true copy_data (decoder_in in_sync_state []) new_link
      (omega arith)

abbrev new_filter : State → List ℕ → Filter (List ℕ) Unit
new_filter state stored = record {
  frontend_validation_buffer = [];
  backend_validation_buffer = [];
  decoder = decoder_in state stored;
  link = new_link;
}

-- Version 3.0 and no parameters.
abbrev startup_packet : List ℕ
startup_packet = 0 ∷ 0 ∷ 0 ∷ 9 ∷ 0 ∷ 3 ∷ 0 ∷ 0 ∷ 0 ∷ []

startup_packet-Startup : Startup list_buffer plain_tools secure_config startup_packet
unfolding on_data dispatch on_data_in_sync on_data_ignore validate_message validate find_processor
    to_be be_value
startup_packet-Startup = record {
  enough = omega arith;
  short = omega arith;
  accepted = refl;
  plain = omega arith;
}

on_read_holds_back_example :
    (g : Filter (List ℕ) Unit) × (on_read list_buffer plain_tools secure_config 1 startup_packet
        (new_filter init_state [])
      ≡ some g)
    × (g.decoder.state ≡ negotiating_upstream_ssl)
    × (g.decoder.temp_storage ≡ startup_packet)
    × (g.link ≡ did (inject_read (to_be 4 8 ++ to_be 4 ssl_request_code) ∷ []) new_link)
    × (g.decoder.frontend_replacement_data ≡ [])
on_read_holds_back_example =
    on_read_holds_back list_buffer plain_tools secure_config 0 startup_packet
      (new_filter init_state []) refl refl startup_packet-Startup

startup_sent_if_secured_example :
    (g : Filter (List ℕ) Unit) × (on_write list_buffer plain_tools secure_config 1
        (b'S' ∷ [])
        false
        (new_filter negotiating_upstream_ssl startup_packet)
      ≡ some g)
    × (g.link ≡ did (upstream_secured ∷ inject_read startup_packet ∷ []) new_link)
    × (true ≡ true → g.decoder.state ≡ in_sync_state)
startup_sent_if_secured_example =
    startup_sent_if_secured list_buffer plain_tools secure_config 0 (b'S' ∷ []) false
      (new_filter negotiating_upstream_ssl startup_packet) refl refl (omega arith)

abbrev lost_filter : Filter (List ℕ) Unit
lost_filter = new_filter out_of_sync_state []

lost_filter-IsLost : IsLost list_buffer plain_tools secure_config lost_filter
lost_filter-IsLost = record { ignoring = lost; no_frontend = refl; no_backend = refl }

-- Data from the client and then from the server.
client_then_server : Calls list_buffer plain_tools secure_config lost_filter lost_filter
unfolding on_read on_write do_decode after_read after_write on_data dispatch on_data_ignore to_be
client_then_server = read_call 9 (1 ∷ 2 ∷ []) refl (write_call 9 (3 ∷ []) false refl no_call)

Calls-IsLost_example :
    IsLost list_buffer plain_tools secure_config lost_filter × (new_link ≡ new_link)
Calls-IsLost_example =
    Calls-IsLost list_buffer plain_tools secure_config lost_filter lost_filter lost_filter-IsLost
      client_then_server

abbrev terminating_config : Config (List ℕ)
terminating_config = record secure_config { terminate_ssl = true }

abbrev tls_started : Option (Filter (List ℕ) Unit) → List (Effect (List ℕ))
tls_started none = []
tls_started (some g) = g.link.effects

-- A new filter that ends TLS answers an SSLRequest by the byte S and waits until it is sent.
ssl_request_answered :
    tls_started (
      on_read list_buffer plain_tools terminating_config 2
        (to_be 4 8 ++ to_be 4 ssl_request_code)
        (New.new_filter list_buffer tt))
    ≡ add_bytes_sent_callback ∷ inject_write (b'S' ∷ []) false ∷ []
unfolding on_read do_decode callbacks after_read on_data dispatch on_data_init init_message
    init_validated startup startup_plain startup_encrypted on_ssl_request validate_message validate
    to_be be_value
ssl_request_answered = refl

-- A CopyData message and the start of another one, and the rest of that.
abbrev first_piece : List ℕ
first_piece = frame b'd' (1 ∷ 2 ∷ 3 ∷ []) ++ b'd' ∷ 0 ∷ 0 ∷ []

abbrev second_piece : List ℕ
second_piece = 0 ∷ 6 ∷ 7 ∷ 8 ∷ []

abbrev decoding_filter : Filter (List ℕ) Unit
decoding_filter = new_filter in_sync_state []

on_read-pieces_example :
    (f₁ : Filter (List ℕ) Unit) × (f₂ : Filter (List ℕ) Unit) × (f₃ : Filter (List ℕ) Unit)
    × (on_read list_buffer plain_tools secure_config 30 first_piece decoding_filter ≡ some f₁)
    × (on_read list_buffer plain_tools secure_config 30 second_piece f₁ ≡ some f₂)
    × (on_read list_buffer plain_tools secure_config 30
          (first_piece ++ second_piece)
          decoding_filter
        ≡ some f₃)
    × SameStream list_buffer (λ c c' e. e) plain_tools secure_config f₂ f₃
unfolding takes_whole_messages on_data dispatch on_data_in_sync on_data_ignore validate_message
    validate find_processor to_be be_value
on_read-pieces_example =
    on_read-pieces list_buffer (λ c c' e. e) plain_tools secure_config 30 first_piece second_piece
      (first_piece ++ second_piece) decoding_filter refl refl refl (omega arith) (omega arith)

on_write-pieces_example :
    (f₁ : Filter (List ℕ) Unit) × (f₂ : Filter (List ℕ) Unit) × (f₃ : Filter (List ℕ) Unit)
    × (on_write list_buffer plain_tools secure_config 30 first_piece false decoding_filter
        ≡ some f₁)
    × (on_write list_buffer plain_tools secure_config 30 second_piece true f₁ ≡ some f₂)
    × (on_write list_buffer plain_tools secure_config 30
          (first_piece ++ second_piece)
          true
          decoding_filter
        ≡ some f₃)
    × SameStream list_buffer (λ c c' e. e) plain_tools secure_config f₂ f₃
unfolding takes_whole_messages on_data dispatch on_data_in_sync on_data_ignore validate_message
    validate find_processor to_be be_value
on_write-pieces_example =
    on_write-pieces list_buffer (λ c c' e. e) plain_tools secure_config 30 first_piece second_piece
      (first_piece ++ second_piece) true decoding_filter refl refl refl (omega arith) (omega arith)
