-- ===== src/Decoder/PassThrough.antt =====
-- Messages that the filter does not look into leave as they came.
use postgres_tde.Base.{
  Bool, List, ap, arith, false, if◌then◌else◌, length, le→ltb-false, ltb, not, refl, some, subst,
  sym, true, ℕ, ◌++◌, ◌+◌, ◌<◌, ◌^◌, ◌∙◌, ◌≡◌, ◌≢◌,
}
use postgres_tde.Buffer.{Buffer}
use postgres_tde.Message.Format.{Fmt, Val, validation_ok}
use postgres_tde.Message.Validate.{validate}
use postgres_tde.Protocol.{
  untyped, message, new_message, validate_message, read_message, write_typed,
}
use postgres_tde.Decoder.Table.{no_action, find_processor, message_group}
use postgres_tde.Decoder.State.{in_sync_state, ready_for_next, Decoder, Callbacks}
use postgres_tde.Decoder.Step.{wait_for_data, sync_message, on_data_in_sync, on_data, dispatch}
use postgres_tde.Decoder.Body.{
  sub32, consume, process_message_body, run_actions, write_replacement, write_back, no_command,
  first_byte,
}
use postgres_tde.Decoder.Frame.{
  frame, write_old-bytes, Framed, Framed-length, Framed-command, Framed-len, Framed-moved,
}

module _ (io : Buffer) {M : Type 0} (cb : Callbacks (Buffer.Buf io) M) where
  open io use {Buf, bytes, size, size-bytes, drain, move_front, copy_out, peek_be}

  -- The buffer of one direction.
  abbrev pub replacement : Bool → Decoder Buf → Buf
  replacement frontend d =
      if frontend then d.frontend_replacement_data else d.backend_replacement_data

  -- What a call leaves, when a message passed through it unchanged.
  pub record Passed (frontend : Bool) (d : Decoder Buf) (m : M) (sent rest : List ℕ) (rest' : Buf)
      (d' : Decoder Buf) (m' : M) : Type 0 where
    pub input : bytes rest' ≡ rest
    pub callee : m' ≡ m
    pub state : d'.state ≡ d.state
    pub output : bytes (replacement frontend d') ≡ bytes (replacement frontend d) ++ sent
    pub other : replacement (not frontend) d' ≡ replacement (not frontend) d
    pub storage : d'.temp_storage ≡ d.temp_storage

  consume_untyped :
      (f : Fmt) (frontend : Bool) (content rest : List ℕ) (v : Val f) (b : Buf) (d : Decoder Buf)
      (m : M)
      → Framed io cb d.command content rest b
      → d.command ≢ no_command
      → d.command < 256
      → let (b', d', m') =
          consume io cb 5
            (length content)
            frontend
            (no_action (untyped f))
            (message (untyped f) v)
            b
            d
            m in
        Passed frontend d m (frame d.command content) rest b' d' m'
  unfolding consume process_message_body run_actions write_replacement write_back read_message
      write_typed
  consume_untyped f true content rest v b d m h named small = record {
    input = (Framed-moved io cb h).1;
    callee = refl;
    state = refl;
    output =
        write_old-bytes io cb d.command (move_front (length content) (drain 5 b)).0
          d.frontend_replacement_data named small
        ∙ ap (λ l. bytes d.frontend_replacement_data ++ frame d.command l) (Framed-moved io cb h).0;
    other = refl;
    storage = refl;
  }
  consume_untyped f false content rest v b d m h named small = record {
    input = (Framed-moved io cb h).1;
    callee = refl;
    state = refl;
    output =
        write_old-bytes io cb d.command (move_front (length content) (drain 5 b)).0
          d.backend_replacement_data named small
        ∙ ap (λ l. bytes d.backend_replacement_data ++ frame d.command l) (Framed-moved io cb h).0;
    other = refl;
    storage = refl;
  }

  sync_reaches :
      (command : ℕ) (f : Fmt) (frontend : Bool) (content rest : List ℕ) (b : Buf) (d : Decoder Buf)
      (m : M)
      → Framed io cb command content rest b
      → find_processor command (message_group frontend) ≡ no_action (untyped f)
      → on_data_in_sync io cb frontend b d m
        ≡ sync_message io cb
            (no_action (untyped f))
            (length content)
            frontend
            b
            (record d { command = command })
            m
  unfolding on_data_in_sync
  sync_reaches command f frontend content rest b d m h found =
      let step = λ (c n : ℕ).
        sync_message io cb (find_processor c (message_group frontend)) (sub32 n 4) frontend b
          (record d { command = c }) m in
      let enough : ltb (size b) 5 ≡ false =
        le→ltb-false _ _ (omega (arith, size-bytes b, Framed-length io cb h)) in
      let less_four : sub32 (length content + 4) 4 ≡ length content = omega (arith, h.short) in
      ap
        (λ t.
          if t
          then wait_for_data io cb b d m
          else step (first_byte (copy_out b 0 1)) (peek_be 4 b 1))
        enough
      ∙ ap (λ c. step c (peek_be 4 b 1)) (Framed-command io cb h)
      ∙ ap (λ n. step command n) (Framed-len io cb h)
      ∙ ap
          (λ p.
            sync_message io cb p (sub32 (length content + 4) 4) frontend b
              (record d { command = command }) m)
          found
      ∙ ap
          (λ n.
            sync_message io cb (no_action (untyped f)) n frontend b (record d { command = command })
              m)
          less_four

  sync_accepts :
      (f : Fmt) (len : ℕ) (frontend : Bool) (b : Buf) (d : Decoder Buf) (m : M)
      → (validate_message io (new_message (untyped f)) b 5 len).0 ≡ validation_ok
      → let validated = (validate_message io (new_message (untyped f)) b 5 len).1 in
        let after =
          consume io cb 5 len frontend
            (no_action (untyped f))
            validated
            b
            (record d { replacement_message = some validated })
            m in
        sync_message io cb (no_action (untyped f)) len frontend b d m
        ≡ record { result = ready_for_next; input = after.0; decoder = after.1; callee = after.2 }
  unfolding sync_message
  sync_accepts f len frontend b d m ok = rw (ok, sync_message) refl

  -- `onData` on a whole message, in sync, of a type with no class of its own, that its validator
  -- accepts: the call returns `ReadyForNext`, takes exactly the message off the input, appends
  -- exactly its bytes to the replacement data of its direction, and changes neither the other
  -- direction's data, nor the state, nor the callee. (The first byte is not '-', which the decoder
  -- uses as a mark.)
  pub on_data_passes_untyped :
      (frontend : Bool) (command : ℕ) (f : Fmt) (content rest : List ℕ) (b : Buf) (d : Decoder Buf)
      (m : M)
      → d.state ≡ in_sync_state
      → bytes b ≡ frame command content ++ rest
      → length content + 4 < 2 ^ 32
      → command < 256
      → command ≢ no_command
      → find_processor command (message_group frontend) ≡ no_action (untyped f)
      → (validate_message io (new_message (untyped f)) b 5 (length content)).0 ≡ validation_ok
      → let o = on_data io cb frontend b d m in
        (o.result ≡ ready_for_next)
        × Passed frontend d m (frame command content) rest o.input o.decoder o.callee
  unfolding on_data dispatch validate_message
  on_data_passes_untyped frontend command f content rest b d m sync holds short small named found
        ok =
      let p = consume_untyped f frontend content rest object b validated m framed named small in
      subst
        (λ o.
          (o.result ≡ ready_for_next)
          × Passed frontend d m (frame command content) rest o.input o.decoder o.callee)
        (sym (
          ap (λ s. dispatch io cb s frontend b d m) sync
          ∙ sync_reaches command f frontend content rest b d m framed found
          ∙ sync_accepts f (length content) frontend b named_decoder m ok))
        (
          refl,
          record {
            input = p.input;
            callee = p.callee;
            state = p.state;
            output = p.output;
            other = p.other;
            storage = p.storage;
          },
        )
    where
      framed : Framed io cb command content rest b
      framed = record { holds = holds; short = short }

      named_decoder : Decoder Buf
      named_decoder = record d { command = command }

      object : Val f
      object = (validate io f b 5 (record { pos = 5; left = length content })).object

      validated : Decoder Buf
      validated = record named_decoder { replacement_message = some (message (untyped f) object) }
