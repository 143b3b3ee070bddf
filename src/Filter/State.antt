-- ===== src/Filter/State.antt =====
-- The filter's configuration and fields, what it does to Envoy, and the callbacks that it gives
-- the decoder.
use postgres_tde.Base.{Bool, List, [], false, if◌then◌else◌, true, ℕ, ◌++◌, ◌∷◌}
use postgres_tde.Buffer.{Buffer}
use postgres_tde.Decoder.State.{Decoder, Handled, Callbacks}
use postgres_tde.Manager.State.{
  Tools, Manager, process_query, process_parse, process_row_description, process_data_row,
  process_command_complete, process_empty_query_response, process_error_response,
}

-- `PostgresTDE::SSLMode`.
pub data SslMode : Type 0 where
  disable require : SslMode

-- The options of `PostgresFilterConfig` that the filter reads, and the answers of Envoy that it
-- asks for: whether `startUpstreamSecureTransport` succeeds, and what `injectReadDataToFilterChain`
-- leaves in the buffer that it was given.
pub record Config (Buf : Type 0) : Type 0 where
  pub terminate_ssl : Bool
  pub upstream_ssl : SslMode
  pub start_upstream_secure_transport : Bool
  pub left_by_inject : Buf → Buf

-- What the filter does to the connection and to the filter chain.
pub data Effect (Buf : Type 0) : Type 0 where
  inject_write : List ℕ → Bool → Effect Buf
  inject_read : List ℕ → Effect Buf
  continue_reading : List ℕ → Effect Buf
  add_bytes_sent_callback : Effect Buf
  upstream_secured : Effect Buf
  upstream_failed : Effect Buf
  close_connection : Effect Buf
  -- A failed `RELEASE_ASSERT`.
  abort : Effect Buf

-- What the decoder's callbacks change: the mutation manager, and what was done so far.
pub record Link (Buf : Type 0) (S : Type 0) : Type 0 where
  pub manager : Manager S
  pub effects : List (Effect Buf)

-- The fields of `PostgresFilter`.
pub record Filter (Buf : Type 0) (S : Type 0) : Type 0 where
  pub frontend_validation_buffer : Buf
  pub backend_validation_buffer : Buf
  pub decoder : Decoder Buf
  pub link : Link Buf S

abbrev pub did : {Buf S : Type 0} → List (Effect Buf) → Link Buf S → Link Buf S
did es l = record l { effects = l.effects ++ es }

-- `processQuery` and the like hand the message on to the manager.
abbrev pub delegate :
    {A Buf S : Type 0}
    → (A → Manager S → Handled A (Manager S))
    → A
    → Link Buf S
    → Handled A (Link Buf S)
delegate handler v l =
    let h = handler v l.manager in
    record { kept = h.kept; emitted = h.emitted; after = record l { manager = h.after } }

module _ (io : Buffer) {Query S : Type 0} (tools : Tools Query S)
    (config : Config (Buffer.Buf io)) where
  open io use {Buf, bytes}

  -- The byte 'S', and the callback that starts the transport once it is sent.
  unfoldable pub on_ssl_request : Link Buf S → Bool × Link Buf S
  on_ssl_request l =
      if config.terminate_ssl
      then (false, did (add_bytes_sent_callback ∷ inject_write (b'S' ∷ []) false ∷ []) l)
      else (true, l)

  unfoldable pub should_encrypt_upstream : Link Buf S → Bool
  should_encrypt_upstream l = elim config.upstream_ssl [ require ↦ true | disable ↦ false ]

  unfoldable pub send_upstream : Buf → Link Buf S → Link Buf S
  send_upstream data_ l = did (inject_read (bytes data_) ∷ []) l

  unfoldable pub encrypt_upstream : Bool → Buf → Link Buf S → Bool × Buf × Link Buf S
  encrypt_upstream upstream_agreed data_ l = elim config.upstream_ssl [
    | disable ↦ (false, data_, did (abort ∷ []) l)
    | require ↦
        if upstream_agreed
        then (if config.start_upstream_secure_transport
            then (
              true,
              config.left_by_inject data_,
              did (upstream_secured ∷ inject_read (bytes data_) ∷ []) l,
            )
            else (false, data_, did (close_connection ∷ upstream_failed ∷ []) l))
        else (false, data_, did (close_connection ∷ upstream_failed ∷ []) l)
  ]

  unfoldable pub callbacks : Callbacks Buf (Link Buf S)
  unfolding on_ssl_request should_encrypt_upstream send_upstream encrypt_upstream process_query
      process_parse process_row_description process_data_row process_command_complete
      process_empty_query_response process_error_response
  callbacks = record {
    process_query = delegate (process_query tools);
    process_parse = delegate (process_parse tools);
    process_row_description = delegate (process_row_description tools);
    process_data_row = delegate (process_data_row tools);
    process_command_complete = delegate (process_command_complete tools);
    process_empty_query_response = delegate (process_empty_query_response tools);
    process_error_response = delegate (process_error_response tools);
    on_ssl_request = on_ssl_request;
    should_encrypt_upstream = should_encrypt_upstream;
    send_upstream = send_upstream;
    encrypt_upstream = encrypt_upstream;
  }
