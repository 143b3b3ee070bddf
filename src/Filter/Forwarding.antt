-- ===== src/Filter/Forwarding.antt =====
-- The startup message when TLS to the server is required: it is held back until the server has
-- agreed to use TLS.
use postgres_tde.Base.{
  [], ap, arith, false, leb, length, ltb, refl, some, suc, take, take_all, to_be, true, ℕ, ◌++◌,
  ◌<◌, ◌∙◌, ◌∷◌, ◌≡◌, ◌≤◌,
}
use mathlib.Core.Option
use postgres_tde.Buffer.{Buffer}
use postgres_tde.Message.Format.{
  ValidationResult, validation_ok, validation_need_more_data, validation_failed,
}
use postgres_tde.Protocol.{Message, new_message, validate_message}
use postgres_tde.Decoder.Table.{startup_msg_processor}
use postgres_tde.Decoder.State.{init_state, negotiating_upstream_ssl, Decoder, stopped, Outcome}
use postgres_tde.Decoder.Step.{on_data, init_message, init_validated}
use postgres_tde.Decoder.Body.{sub32, max_startup_packet_length, ssl_request_code}
use postgres_tde.Manager.State.{Tools}
use postgres_tde.Filter.State.{
  require, Config, inject_read, Link, Filter, did, callbacks, should_encrypt_upstream,
}
use postgres_tde.Decoder.Progress.{drained}
use postgres_tde.Filter.Decode.{do_decode-stopped}
use postgres_tde.Filter.Run.{on_read, after_read}

module _ (io : Buffer) {Query S : Type 0} (tools : Tools Query S)
    (config : Config (Buffer.Buf io)) where
  open io use {
    Buf, bytes, peek_be, append, size, size-bytes, copy_out, write_be, empty, copy_out-bytes,
    add-bytes, write_be-bytes, bytes-empty, append-bytes,
  }

  -- A whole startup message that does not ask for encryption.
  pub record Startup (b : Buf) : Type 0 where
    pub enough : 8 ≤ length (bytes b)
    pub short : peek_be 4 b 0 ≤ max_startup_packet_length
    pub accepted :
        (validate_message io
          (new_message startup_msg_processor.factory)
          b
          4
          (sub32 (peek_be 4 b 0) 4)).0
        ≡ validation_ok
    pub plain : peek_be 4 b 4 < 0x04d20000

  -- What is left behind when a startup message was held back.
  pub record HeldBack (b temp : Buf) (l : Link Buf S) (o : Outcome Buf (Link Buf S)) : Type 0 where
    pub ended : o.result ≡ stopped
    pub waiting : o.decoder.state ≡ negotiating_upstream_ssl
    pub stored : bytes o.decoder.temp_storage ≡ bytes temp ++ bytes b
    pub asked : o.callee ≡ did (inject_read (to_be 4 8 ++ to_be 4 ssl_request_code) ∷ []) l

  copy_all : (b : Buf) → copy_out b 0 (size b) ≡ bytes b
  copy_all b =
      copy_out-bytes b 0 (size b) (omega (arith, size-bytes b))
      ∙ ap (λ n. take n (bytes b)) (size-bytes b)
      ∙ take_all (bytes b)

  requires :
      (l : Link Buf S)
      → config.upstream_ssl ≡ require
      → should_encrypt_upstream io tools config l ≡ true
  unfolding should_encrypt_upstream
  requires l h = rw h refl

  startup_message-HeldBack :
      (b : Buf) (d : Decoder Buf) (l : Link Buf S) (n : ℕ) (v : ValidationResult × Message)
      → config.upstream_ssl ≡ require
      → v.0 ≡ validation_ok
      → leb 0x04d20000 (peek_be 4 b 4) ≡ false
      → HeldBack b d.temp_storage l (init_validated io (callbacks io tools config) v n b d l)
  unfolding init_validated callbacks
  startup_message-HeldBack b d l n (validation_ok, r) secure accepted is_plain =
      rw (is_plain, requires l secure)
        record {
          ended = refl;
          waiting = refl;
          stored = add-bytes _ d.temp_storage ∙ ap (λ l. bytes d.temp_storage ++ l) (copy_all b);
          asked =
              ap (λ w. did (inject_read w ∷ []) l)
                (write_be-bytes 4 ssl_request_code (write_be 4 8 empty)
                  ∙ ap (λ w. w ++ to_be 4 ssl_request_code)
                      (write_be-bytes 4 8 empty ∙ ap (λ w. w ++ to_be 4 8) bytes-empty));
        }
  startup_message-HeldBack b d l n (validation_need_more_data, r) secure accepted is_plain = cc
  startup_message-HeldBack b d l n (validation_failed, r) secure accepted is_plain = cc

  Startup-HeldBack :
      (b : Buf) (d : Decoder Buf) (l : Link Buf S)
      → config.upstream_ssl ≡ require
      → d.state ≡ init_state
      → Startup b
      → HeldBack b d.temp_storage l (on_data io (callbacks io tools config) true b d l)
  unfolding on_data callbacks init_message
  Startup-HeldBack b d l secure initial s =
      rw (initial, ltb-size, ltb-short)
        (startup_message-HeldBack b
          (record d {
            state = init_state;
            replacement_message =
                some
                  (validate_message io (new_message startup_msg_processor.factory) b 4
                    (sub32 (peek_be 4 b 0) 4)).1;
          })
          l _ _ secure s.accepted is_plain)
    where
      ltb-size : ltb (size b) 4 ≡ false
      ltb-size = ground (arith, size-bytes b, s.enough)

      ltb-short : ltb max_startup_packet_length (peek_be 4 b 0) ≡ false
      ltb-short = ground (arith, s.short)

      is_plain : leb 0x04d20000 (peek_be 4 b 4) ≡ false
      is_plain = ground (arith, s.plain)

  -- With `upstream_ssl` REQUIRE, when the buffered bytes and the new ones are a whole startup
  -- message that does not ask for encryption, `onData` passes none of them on: it sends the server
  -- an SSLRequest and nothing else, stores the bytes, leaves nothing for the filter chain, and
  -- waits for the answer.
  pub on_read_holds_back :
      (fuel : ℕ) (data_ : Buf) (f : Filter Buf S)
      → config.upstream_ssl ≡ require
      → f.decoder.state ≡ init_state
      → Startup (append f.frontend_validation_buffer data_)
      → (g : Filter Buf S) × (on_read io tools config (suc fuel) data_ f ≡ some g)
        × (g.decoder.state ≡ negotiating_upstream_ssl)
        × (bytes g.decoder.temp_storage
            ≡ bytes f.decoder.temp_storage ++ (bytes f.frontend_validation_buffer ++ bytes data_))
        × (g.link ≡ did (inject_read (to_be 4 8 ++ to_be 4 ssl_request_code) ∷ []) f.link)
        × (bytes g.decoder.frontend_replacement_data ≡ [])
  unfolding on_read after_read
  on_read_holds_back fuel data_ f secure initial s =
      let b = append f.frontend_validation_buffer data_ in
      let o = on_data io (callbacks io tools config) true b f.decoder f.link in
      let held = Startup-HeldBack b f.decoder f.link secure initial s in
      let stored =
        held.stored
        ∙ ap (λ bs. bytes f.decoder.temp_storage ++ bs)
            (append-bytes f.frontend_validation_buffer data_) in
      (
        after_read io tools config f.backend_validation_buffer o,
        ap (Option.map (after_read io tools config f.backend_validation_buffer)) (
            do_decode-stopped io (callbacks io tools config) fuel true b f.decoder f.link
              (omega (arith, s.enough)) held.ended),
        (stays o held.ended).0 ∙ held.waiting,
        ap bytes ((stays o held.ended).1) ∙ stored,
        (stays o held.ended).2 ∙ held.asked,
        (stays o held.ended).3,
      )
    where
      stays :
          (o : Outcome Buf (Link Buf S))
          → o.result ≡ stopped
          → let g = after_read io tools config f.backend_validation_buffer o in
            (g.decoder.state ≡ o.decoder.state)
            × (g.decoder.temp_storage ≡ o.decoder.temp_storage)
            × (g.link ≡ o.callee)
            × (bytes g.decoder.frontend_replacement_data ≡ [])
      stays o e = rw e (refl, refl, refl, drained io _)
