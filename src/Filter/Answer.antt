-- ===== src/Filter/Answer.antt =====
-- The answer of the server to the SSLRequest that the filter sent.
use postgres_tde.Base.{
  Bool, Bool-cases, List, [], ap, arith, false, from_be_one, if◌then◌else◌, inl, inr, length, refl,
  some, suc, true, ℕ, ◌++◌, ◌<◌, ◌==◌, ◌∙◌, ◌∷◌, ◌≡◌,
}
use mathlib.Core.Option
use postgres_tde.Buffer.{Buffer}
use postgres_tde.Decoder.State.{
  Callbacks, in_sync_state, negotiating_upstream_ssl, Decoder, stopped, Outcome,
}
use postgres_tde.Decoder.Step.{on_data, ssl_answer, on_data_in_negotiating}
use postgres_tde.Manager.State.{Tools}
use postgres_tde.Filter.State.{
  require, Config, Effect, inject_read, upstream_secured, upstream_failed, close_connection, Link,
  Filter, did, callbacks, encrypt_upstream,
}
use postgres_tde.Filter.Decode.{do_decode-stopped}
use postgres_tde.Filter.Run.{on_write, after_write}

-- The one answer that agrees to TLS.
abbrev pub agrees : List ℕ → Bool
agrees [] = false
agrees (c ∷ []) = c == b'S'
agrees (c ∷ c' ∷ cs) = false

module _ (io : Buffer) {Query S : Type 0} (tools : Tools Query S)
    (config : Config (Buffer.Buf io)) where
  open io use {Buf, bytes, append, size, size-bytes, peek_be-bytes, append-bytes}

  -- What is done on an answer: the stored startup message is sent if TLS to the server is up, and
  -- the connection is closed otherwise.
  abbrev pub on_answer : Bool → List ℕ → List (Effect Buf)
  on_answer true stored = upstream_secured ∷ inject_read stored ∷ []
  on_answer false stored = close_connection ∷ upstream_failed ∷ []

  abbrev pub secured : List ℕ → Bool
  secured answer = if agrees answer then config.start_upstream_secure_transport else false

  ssl_answer-agrees :
      (cb : Callbacks Buf (Link Buf S)) (b : Buf) → (ssl_answer io cb b).1 ≡ agrees (bytes b)
  ssl_answer-agrees cb b = go (bytes b) refl
    where
      go : (bs : List ℕ) → bytes b ≡ bs → (ssl_answer io cb b).1 ≡ agrees bs
      go [] e = rw (size-bytes b, e) refl
      go (c ∷ []) e =
          rw (size-bytes b, e, peek_be-bytes 1 b 0 (omega (arith, ap length e)), e, from_be_one c)
            (ground arith)
      go (c ∷ c' ∷ cs) e = rw (size-bytes b, e) (ground arith)

  -- What is left when an answer came.
  record Answered (answer : List ℕ) (d : Decoder Buf) (l : Link Buf S)
      (o : Outcome Buf (Link Buf S)) : Type 0 where
    ended : o.result ≡ stopped
    done : o.callee ≡ did (on_answer (secured answer) (bytes d.temp_storage)) l
    settled : secured answer ≡ true → o.decoder.state ≡ in_sync_state

  encrypt_upstream_lem :
      (agreed : Bool) (stored : Buf) (l : Link Buf S)
      → config.upstream_ssl ≡ require
      → let done = encrypt_upstream io tools config agreed stored l in
        let up = if agreed then config.start_upstream_secure_transport else false in
        (done.2 ≡ did (on_answer up (bytes stored)) l) × (done.0 ≡ up)
  unfolding encrypt_upstream
  encrypt_upstream_lem false stored l h = rw h (refl, refl)
  encrypt_upstream_lem true stored l h = elim (Bool-cases config.start_upstream_secure_transport) [
    | inl e ↦ rw (h, e) (refl, refl)
    | inr e ↦ rw (h, e) (refl, refl)
  ]

  on_data-Answered :
      (b : Buf) (d : Decoder Buf) (l : Link Buf S)
      → config.upstream_ssl ≡ require
      → d.state ≡ negotiating_upstream_ssl
      → Answered (bytes b) d l (on_data io (callbacks io tools config) false b d l)
  unfolding on_data callbacks
  on_data-Answered b d l secure waiting =
      rw (waiting, on_data_in_negotiating, ssl_answer-agrees (callbacks io tools config) b)
        record {
          ended = refl;
          done = (encrypt_upstream_lem (agrees (bytes b)) d.temp_storage l secure).0;
          settled =
              λ e. rw ((encrypt_upstream_lem (agrees (bytes b)) d.temp_storage l secure).1, e) refl;
        }

  -- With `upstream_ssl` REQUIRE, while the filter waits for the answer to its SSLRequest, `onWrite`
  -- takes any data, which may not be empty, as the answer, and passes none of it on. If it is the
  -- byte 'S' alone and Envoy can start TLS to the server, the stored startup message is sent, all
  -- of it and once, and messages are decoded from then on; on any other answer, and if TLS does
  -- not start, the connection is closed and nothing is sent.
  pub startup_sent_if_secured :
      (fuel : ℕ) (data_ : Buf) (end_stream : Bool) (f : Filter Buf S)
      → config.upstream_ssl ≡ require
      → f.decoder.state ≡ negotiating_upstream_ssl
      → let answer = bytes f.backend_validation_buffer ++ bytes data_ in
        0 < length answer
        → (g : Filter Buf S) × (on_write io tools config (suc fuel) data_ end_stream f ≡ some g)
          × (g.link ≡ did (on_answer (secured answer) (bytes f.decoder.temp_storage)) f.link)
          × (secured answer ≡ true → g.decoder.state ≡ in_sync_state)
  unfolding on_write after_write
  startup_sent_if_secured fuel data_ end_stream f secure waiting h =
      let b = append f.backend_validation_buffer data_ in
      let o = on_data io (callbacks io tools config) false b f.decoder f.link in
      let joined = append-bytes f.backend_validation_buffer data_ in
      let a = on_data-Answered b f.decoder f.link secure waiting in
      (
        after_write io tools config f.frontend_validation_buffer end_stream o,
        ap (Option.map (after_write io tools config f.frontend_validation_buffer end_stream)) (
            do_decode-stopped io (callbacks io tools config) fuel false b f.decoder f.link
              (omega (arith, ap length joined, h)) a.ended),
        (stays o a.ended).1
            ∙ a.done
            ∙ ap (λ bs. did (on_answer (secured bs) (bytes f.decoder.temp_storage)) f.link) joined,
        λ e. (stays o a.ended).0 ∙ a.settled (ap secured joined ∙ e),
      )
    where
      stays :
          (o : Outcome Buf (Link Buf S))
          → o.result ≡ stopped
          → let g = after_write io tools config f.frontend_validation_buffer end_stream o in
            (g.decoder.state ≡ o.decoder.state) × (g.link ≡ o.callee)
      stays o e = rw e (refl, refl)
