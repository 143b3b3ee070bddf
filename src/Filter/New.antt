-- ===== src/Filter/New.antt =====
-- postgres_filter.cc and postgres_mutation_manager.cc: the constructors, and the callback that
-- `onSSLRequest` registers.
use postgres_tde.Base.{Bool, [], false, if◌then◌else◌, leb, none, true, ℕ, ◌∷◌}
use postgres_tde.Buffer.{Buffer}
use postgres_tde.Manager.Mutator.{ok}
use postgres_tde.Manager.State.{Manager}
use postgres_tde.Decoder.State.{Decoder, init_state}
use postgres_tde.Decoder.Body.{no_command}
use postgres_tde.Filter.State.{close_connection, Link, Filter, did}

module _ (io : Buffer) where
  open io use {Buf, empty}

  abbrev pub new_decoder : Decoder Buf
  new_decoder = record {
    state = init_state;
    command = no_command;
    replacement_message = none;
    frontend_replacement_data = empty;
    backend_replacement_data = empty;
    temp_storage = empty;
    encrypted = false;
    fault = false;
  }

  abbrev pub new_manager : {S : Type 0} → S → Manager S
  new_manager s = record {
    error_state = ok;
    retent_row_description = none;
    retent_rows = [];
    mutators = s;
  }

  -- `PostgresFilter::PostgresFilter`, with the fields of new mutators.
  abbrev pub new_filter : {S : Type 0} → S → Filter Buf S
  new_filter s = record {
    frontend_validation_buffer = empty;
    backend_validation_buffer = empty;
    decoder = new_decoder;
    link = record { manager = new_manager s; effects = [] };
  }

  -- The callback of `addBytesSentCallback`, by whether `startSecureTransport` succeeds: whether it
  -- stays registered, and what it does.
  unfoldable pub on_bytes_sent : {S : Type 0} → Bool → ℕ → Link Buf S → Bool × Link Buf S
  on_bytes_sent start_secure_transport sent l =
      if leb 1 sent
      then (if start_secure_transport then (false, l) else (true, did (close_connection ∷ []) l))
      else (true, l)
