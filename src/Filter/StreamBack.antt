-- ===== src/Filter/StreamBack.antt =====
-- postgres_filter.cc: `onWrite` on data that arrives in pieces.
use postgres_tde.Base.{
  Bool, List, ap, arith, false, length, refl, some, sym, true, ℕ, ◌++◌, ◌+◌, ◌<◌, ◌^◌, ◌∙◌, ◌≡◌,
  ◌≢◌,
}
use mathlib.Core.Option
use postgres_tde.Buffer.{Buffer}
use postgres_tde.Decoder.State.{
  in_sync_state, Decoder, Result, ready_for_next, need_more_data, stopped, Outcome,
}
use postgres_tde.Manager.State.{Tools}
use postgres_tde.Filter.State.{Config, Effect, inject_write, Link, Filter, did, callbacks}
use postgres_tde.Filter.Run.{on_write, after_write, moved}
use mathlib.Core.Path.{subst₂}
use postgres_tde.Filter.Whole.{takes_whole_messages}
use postgres_tde.Filter.Sent.{
  sent_upstream, sent_downstream, sent_upstream-append, sent_downstream-append,
  sent_upstream-append3, sent_downstream-append3, moved-inject_write,
}
use postgres_tde.Filter.Flush.{
  append_empty_left, append_empty_right, Flush, regained, do_decode-TwoRuns,
}
use postgres_tde.Filter.Stream.{SameStream, append-length, append-pieces}

module _ (io : Buffer) (same : (c c' : io.Buf) → io.bytes c ≡ io.bytes c' → c ≡ c')
    {Query S : Type 0} (tools : Tools Query S) (config : Config io.Buf) where
  open io use {Buf, bytes, bytes-empty, size, size-bytes, append, append-bytes, empty}

  -- What `onWrite` moves on after a run: the data for the client.
  abbrev write_moves : Bool → Decoder Buf → List (Effect Buf)
  write_moves end_stream d =
      moved io tools config d.backend_replacement_data (λ bs. inject_write bs end_stream)

  -- `onWrite` empties the side of the client only.
  abbrev write_flush : Flush io same tools config
  write_flush = record {
    flushed = λ d. record d { backend_replacement_data = empty };
    front = λ d. empty;
    back = λ d. d.backend_replacement_data;
    moves = write_moves false;
    keeps_state = λ d. refl;
    restored = λ d.
        ap
          (λ i. record d {
            frontend_replacement_data = i;
            backend_replacement_data = append d.backend_replacement_data empty;
          })
          (append_empty_left io same tools config d.frontend_replacement_data)
        ∙ ap (λ i. record d { backend_replacement_data = i })
            (append_empty_right io same tools config d.backend_replacement_data);
  }

  after_write-passed :
      (frontend : Buf) (end_stream : Bool) (o : Outcome Buf (Link Buf S))
      → o.result ≢ stopped
      → after_write io tools config frontend end_stream o ≡ record {
        frontend_validation_buffer = frontend;
        backend_validation_buffer = o.input;
        decoder = write_flush.flushed o.decoder;
        link = did (write_moves end_stream o.decoder) o.callee;
      }
  unfolding after_write
  after_write-passed frontend end_stream o h = go o.result refl
    where
      go :
          (r : Result)
          → o.result ≡ r
          → after_write io tools config frontend end_stream o ≡ record {
            frontend_validation_buffer = frontend;
            backend_validation_buffer = o.input;
            decoder = write_flush.flushed o.decoder;
            link = did (write_moves end_stream o.decoder) o.callee;
          }
      go ready_for_next e = rw (e, after_write) refl
      go need_more_data e = rw (e, after_write) refl
      go stopped e = absurd (h e)

  after_write-SameStream :
      (frontend : Buf) (end_stream : Bool) (d : Decoder Buf) (l : Link Buf S)
      (o₂ o₃ : Outcome Buf (Link Buf S))
      → o₂.result ≢ stopped
      → o₂.callee.effects ≡ l.effects ++ write_moves false d
      → regained io same tools config write_flush d l o₂ ≡ o₃
      → SameStream io same tools config
          (after_write io tools config frontend end_stream o₂)
          (after_write io tools config frontend end_stream o₃)
  after_write-SameStream frontend end_stream d l o₂ o₃ goes sent after =
      let back = d.backend_replacement_data in
      let whole = regained io same tools config write_flush d l o₂ in
      let last = write_moves end_stream o₂.decoder in
      let before = moved-inject_write io tools config back false in
      let more =
        moved-inject_write io tools config o₂.decoder.backend_replacement_data end_stream in
      let all =
        moved-inject_write io tools config whole.decoder.backend_replacement_data end_stream in
      subst₂ (SameStream io same tools config)
        (sym (after_write-passed frontend end_stream o₂ goes))
        (sym (after_write-passed frontend end_stream whole goes)
          ∙ ap (after_write io tools config frontend end_stream) after)
        (record {
          upstream =
              ap (λ i. sent_upstream (i ++ last)) sent
              ∙ sent_upstream-append3 l.effects (write_moves false d) last
              ∙ ap (λ i. sent_upstream l.effects ++ (i ++ sent_upstream last)) before.0
              ∙ ap (λ i. sent_upstream l.effects ++ i) (more.0 ∙ sym all.0)
              ∙ sym (sent_upstream-append l.effects (write_moves end_stream whole.decoder));
          downstream =
              ap (λ i. sent_downstream (i ++ last)) sent
              ∙ sent_downstream-append3 l.effects (write_moves false d) last
              ∙ ap (λ i. sent_downstream l.effects ++ (i ++ sent_downstream last)) before.1
              ∙ ap (λ i. sent_downstream l.effects ++ (bytes back ++ i)) more.1
              ∙ ap (λ i. sent_downstream l.effects ++ i)
                  (sym (all.1 ∙ append-bytes back o₂.decoder.backend_replacement_data))
              ∙ sym (sent_downstream-append l.effects (write_moves end_stream whole.decoder));
          frontend_buffer = refl;
          backend_buffer = refl;
          decoder =
              ap
                (λ i. record o₂.decoder {
                  frontend_replacement_data = i;
                  backend_replacement_data = empty;
                })
                (sym (append_empty_left io same tools config o₂.decoder.frontend_replacement_data));
          manager = refl;
        })

  -- Where buffers with the same bytes are the same: in sync, and when the run on the first piece
  -- takes whole messages, `onWrite` on data in two pieces and `onWrite` on all of it at once end,
  -- with more turns than there are bytes, and send the same bytes to the client and the same bytes
  -- to the server, and leave the filter in the same state. (There are less than 2 ^ 63 bytes, and
  -- the end of the stream comes with the second piece.)
  pub on_write-pieces :
      (fuel : ℕ) (x y z : Buf) (end_stream : Bool) (f : Filter Buf S)
      → f.decoder.state ≡ in_sync_state
      → takes_whole_messages io
          (callbacks io tools config)
          fuel
          false
          (append f.backend_validation_buffer x)
          f.decoder
          f.link
        ≡ true
      → bytes z ≡ bytes x ++ bytes y
      → length (bytes f.backend_validation_buffer) + length (bytes z) < fuel
      → length (bytes f.backend_validation_buffer) + length (bytes z) < 2 ^ 63
      → (f₁ : Filter Buf S) × (f₂ : Filter Buf S) × (f₃ : Filter Buf S) × (on_write io tools config
            fuel x false f
          ≡ some f₁)
        × (on_write io tools config fuel y end_stream f₁ ≡ some f₂)
        × (on_write io tools config fuel z end_stream f ≡ some f₃)
        × SameStream io same tools config f₂ f₃
  unfolding on_write
  on_write-pieces fuel x y z end_stream f sync whole pieces enough small =
      let all = append f.backend_validation_buffer z in
      let all_length = append-length io same tools config f.backend_validation_buffer z in
      let runs =
        do_decode-TwoRuns io same tools config write_flush fuel false
          (append f.backend_validation_buffer x) all y f.decoder f.link sync whole
          (append-pieces io same tools config f.backend_validation_buffer x y z pieces)
          (omega (arith, all_length, enough)) (omega (arith, all_length, small)) in
      let after = after_write io tools config f.frontend_validation_buffer end_stream in
      (
        record {
          frontend_validation_buffer = f.frontend_validation_buffer;
          backend_validation_buffer = runs.o₁.input;
          decoder = write_flush.flushed runs.o₁.decoder;
          link = did (write_moves false runs.o₁.decoder) runs.o₁.callee;
        },
        after runs.o₂,
        after runs.o₃,
        ap (Option.map (after_write io tools config f.frontend_validation_buffer false)) runs.run₁
            ∙ ap some (after_write-passed f.frontend_validation_buffer false runs.o₁ runs.goes₁),
        ap (Option.map after) runs.run₂,
        ap (Option.map after) runs.run₃,
        after_write-SameStream f.frontend_validation_buffer end_stream runs.o₁.decoder
            runs.o₁.callee runs.o₂ runs.o₃ runs.goes₂ runs.sent runs.regains,
      )
