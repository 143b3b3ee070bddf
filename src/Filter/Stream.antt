-- ===== src/Filter/Stream.antt =====
-- postgres_filter.cc: `onData` on data that arrives in pieces.
use postgres_tde.Base.{
  List, ap, append-nil, append_assoc, arith, false, length, length-append, refl, some, sym, true, ℕ,
  ◌++◌, ◌+◌, ◌<◌, ◌^◌, ◌∙◌, ◌≡◌, ◌≢◌,
}
use mathlib.Core.Option
use postgres_tde.Buffer.{Buffer}
use postgres_tde.Decoder.State.{
  in_sync_state, Decoder, Result, ready_for_next, need_more_data, stopped, Outcome,
}
use postgres_tde.Manager.State.{Tools}
use postgres_tde.Filter.State.{
  Config, Effect, inject_write, continue_reading, Link, Filter, did, callbacks,
}
use postgres_tde.Filter.Run.{on_read, after_read, moved}
use mathlib.Core.Path.{subst₂}
use postgres_tde.Filter.Whole.{takes_whole_messages}
use postgres_tde.Filter.Sent.{
  sent_upstream, sent_downstream, sent_upstream-append, sent_downstream-append,
  sent_upstream-append3, sent_downstream-append3, moved-inject_write, moved-continue_reading,
}
use postgres_tde.Filter.Flush.{append_empty_right, Flush, regained, do_decode-TwoRuns}

module _ (io : Buffer) (same : (c c' : io.Buf) → io.bytes c ≡ io.bytes c' → c ≡ c')
    {Query S : Type 0} (tools : Tools Query S) (config : Config io.Buf) where
  open io use {Buf, bytes, bytes-empty, size, size-bytes, append, append-bytes, empty}

  -- What `onData` moves on after a run.
  abbrev read_moves : Decoder Buf → List (Effect Buf)
  read_moves d =
      moved io tools config d.backend_replacement_data (λ bs. inject_write bs false)
      ++ moved io tools config d.frontend_replacement_data continue_reading

  read_moves-sent :
      (d : Decoder Buf)
      → (sent_upstream (read_moves d) ≡ bytes d.frontend_replacement_data)
        × (sent_downstream (read_moves d) ≡ bytes d.backend_replacement_data)
  read_moves-sent d =
      let b = moved io tools config d.backend_replacement_data (λ bs. inject_write bs false) in
      let f = moved io tools config d.frontend_replacement_data continue_reading in
      let back = moved-inject_write io tools config d.backend_replacement_data false in
      let front = moved-continue_reading io tools config d.frontend_replacement_data in
      (
        sent_upstream-append b f ∙ ap (λ l. l ++ sent_upstream f) back.0 ∙ front.0,
        sent_downstream-append b f
            ∙ ap (λ l. sent_downstream b ++ l) front.1
            ∙ append-nil (sent_downstream b)
            ∙ back.1,
      )

  -- `onData` empties both sides.
  abbrev read_flush : Flush io same tools config
  read_flush = record {
    flushed = λ d. record d { frontend_replacement_data = empty; backend_replacement_data = empty };
    front = λ d. d.frontend_replacement_data;
    back = λ d. d.backend_replacement_data;
    moves = read_moves;
    keeps_state = λ d. refl;
    restored = λ d.
        ap
          (λ i. record d {
            frontend_replacement_data = i;
            backend_replacement_data = append d.backend_replacement_data empty;
          })
          (append_empty_right io same tools config d.frontend_replacement_data)
        ∙ ap (λ i. record d { backend_replacement_data = i })
            (append_empty_right io same tools config d.backend_replacement_data);
  }

  after_read-passed :
      (backend : Buf) (o : Outcome Buf (Link Buf S))
      → o.result ≢ stopped
      → after_read io tools config backend o ≡ record {
        frontend_validation_buffer = o.input;
        backend_validation_buffer = backend;
        decoder = read_flush.flushed o.decoder;
        link = did (read_moves o.decoder) o.callee;
      }
  unfolding after_read
  after_read-passed backend o h = go o.result refl
    where
      go :
          (r : Result)
          → o.result ≡ r
          → after_read io tools config backend o ≡ record {
            frontend_validation_buffer = o.input;
            backend_validation_buffer = backend;
            decoder = read_flush.flushed o.decoder;
            link = did (read_moves o.decoder) o.callee;
          }
      go ready_for_next e = rw (e, after_read) refl
      go need_more_data e = rw (e, after_read) refl
      go stopped e = absurd (h e)

  pub append-length :
      (b c : Buf) → length (bytes (append b c)) ≡ length (bytes b) + length (bytes c)
  append-length b c = ap length (append-bytes b c) ∙ length-append (bytes b) (bytes c)

  pub append-pieces :
      (b x y z : Buf)
      → bytes z ≡ bytes x ++ bytes y
      → bytes (append b z) ≡ bytes (append b x) ++ bytes y
  append-pieces b x y z pieces =
      append-bytes b z
      ∙ ap (λ i. bytes b ++ i) pieces
      ∙ sym (append_assoc (bytes b) (bytes x) (bytes y))
      ∙ ap (λ i. i ++ bytes y) (sym (append-bytes b x))

  -- Two filters that have sent the same bytes to either side, and otherwise are in the same state.
  pub record SameStream (f g : Filter Buf S) : Type 0 where
    pub upstream : sent_upstream f.link.effects ≡ sent_upstream g.link.effects
    pub downstream : sent_downstream f.link.effects ≡ sent_downstream g.link.effects
    pub frontend_buffer : f.frontend_validation_buffer ≡ g.frontend_validation_buffer
    pub backend_buffer : f.backend_validation_buffer ≡ g.backend_validation_buffer
    pub decoder : f.decoder ≡ g.decoder
    pub manager : f.link.manager ≡ g.link.manager

  -- A run on from where an earlier one left the decoder `d` and the callee `l`, with what stood in
  -- the replacement data sent before.
  after_read-SameStream :
      (backend : Buf) (d : Decoder Buf) (l : Link Buf S) (o₂ o₃ : Outcome Buf (Link Buf S))
      → o₂.result ≢ stopped
      → o₂.callee.effects ≡ l.effects ++ read_moves d
      → regained io same tools config read_flush d l o₂ ≡ o₃
      → SameStream (after_read io tools config backend o₂) (after_read io tools config backend o₃)
  after_read-SameStream backend d l o₂ o₃ goes sent after =
      let front = d.frontend_replacement_data in
      let back = d.backend_replacement_data in
      let whole = regained io same tools config read_flush d l o₂ in
      let before = read_moves-sent d in
      let more = read_moves-sent o₂.decoder in
      let all = read_moves-sent whole.decoder in
      subst₂ SameStream (sym (after_read-passed backend o₂ goes))
        (sym (after_read-passed backend whole goes) ∙ ap (after_read io tools config backend) after)
        (record {
          upstream =
              ap (λ i. sent_upstream (i ++ read_moves o₂.decoder)) sent
              ∙ sent_upstream-append3 l.effects (read_moves d) (read_moves o₂.decoder)
              ∙ ap (λ i. sent_upstream l.effects ++ (i ++ sent_upstream (read_moves o₂.decoder)))
                  before.0
              ∙ ap (λ i. sent_upstream l.effects ++ (bytes front ++ i)) more.0
              ∙ ap (λ i. sent_upstream l.effects ++ i)
                  (sym (all.0 ∙ append-bytes front o₂.decoder.frontend_replacement_data))
              ∙ sym (sent_upstream-append l.effects (read_moves whole.decoder));
          downstream =
              ap (λ i. sent_downstream (i ++ read_moves o₂.decoder)) sent
              ∙ sent_downstream-append3 l.effects (read_moves d) (read_moves o₂.decoder)
              ∙ ap
                  (λ i. sent_downstream l.effects ++ (i ++ sent_downstream (read_moves o₂.decoder)))
                  before.1
              ∙ ap (λ i. sent_downstream l.effects ++ (bytes back ++ i)) more.1
              ∙ ap (λ i. sent_downstream l.effects ++ i)
                  (sym (all.1 ∙ append-bytes back o₂.decoder.backend_replacement_data))
              ∙ sym (sent_downstream-append l.effects (read_moves whole.decoder));
          frontend_buffer = refl;
          backend_buffer = refl;
          decoder = refl;
          manager = refl;
        })

  -- Where buffers with the same bytes are the same: in sync, and when the run on the first piece
  -- takes whole messages, `onData` on data in two pieces and `onData` on all of it at once end, with
  -- more turns than there are bytes, and send the same bytes to the server and the same bytes to
  -- the client, and leave the filter in the same state. (There are less than 2 ^ 63 bytes.)
  pub on_read-pieces :
      (fuel : ℕ) (x y z : Buf) (f : Filter Buf S)
      → f.decoder.state ≡ in_sync_state
      → takes_whole_messages io
          (callbacks io tools config)
          fuel
          true
          (append f.frontend_validation_buffer x)
          f.decoder
          f.link
        ≡ true
      → bytes z ≡ bytes x ++ bytes y
      → length (bytes f.frontend_validation_buffer) + length (bytes z) < fuel
      → length (bytes f.frontend_validation_buffer) + length (bytes z) < 2 ^ 63
      → (f₁ : Filter Buf S) × (f₂ : Filter Buf S) × (f₃ : Filter Buf S) × (on_read io tools config
            fuel x f
          ≡ some f₁)
        × (on_read io tools config fuel y f₁ ≡ some f₂)
        × (on_read io tools config fuel z f ≡ some f₃)
        × SameStream f₂ f₃
  unfolding on_read
  on_read-pieces fuel x y z f sync whole pieces enough small =
      let all = append f.frontend_validation_buffer z in
      let all_length = append-length f.frontend_validation_buffer z in
      let runs =
        do_decode-TwoRuns io same tools config read_flush fuel true
          (append f.frontend_validation_buffer x) all y f.decoder f.link sync whole
          (append-pieces f.frontend_validation_buffer x y z pieces)
          (omega (arith, all_length, enough)) (omega (arith, all_length, small)) in
      let after = after_read io tools config f.backend_validation_buffer in
      (
        record {
          frontend_validation_buffer = runs.o₁.input;
          backend_validation_buffer = f.backend_validation_buffer;
          decoder = read_flush.flushed runs.o₁.decoder;
          link = did (read_moves runs.o₁.decoder) runs.o₁.callee;
        },
        after runs.o₂,
        after runs.o₃,
        ap (Option.map after) runs.run₁
            ∙ ap some (after_read-passed f.backend_validation_buffer runs.o₁ runs.goes₁),
        ap (Option.map after) runs.run₂,
        ap (Option.map after) runs.run₃,
        after_read-SameStream f.backend_validation_buffer runs.o₁.decoder runs.o₁.callee runs.o₂
            runs.o₃ runs.goes₂ runs.sent runs.regains,
      )
