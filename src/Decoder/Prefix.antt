-- ===== src/Decoder/Prefix.antt =====
-- postgres_decoder.cc: what stands in the replacement data before a call of `onData`.
use postgres_tde.Base.{Bool, Bool-cases, ap, inl, inr, ltb, refl, some, ℕ, ◌≡◌}
use postgres_tde.Buffer.{Buffer}
use postgres_tde.Message.Format.{
  ValidationResult, validation_failed, validation_ok, validation_need_more_data,
}
use postgres_tde.Protocol.{Message, new_message, validate_message}
use postgres_tde.Decoder.Table.{MessageProcessor, find_processor, message_group}
use postgres_tde.Decoder.State.{State, ready_for_next, Decoder, Callbacks, Outcome}
use postgres_tde.Decoder.Body.{sub32, first_byte, consume}
use postgres_tde.Decoder.InSync.{PastStartup, decoding, given_up}
use postgres_tde.Decoder.Step.{sync_message, on_data_in_sync, dispatch, on_data_ignore, on_data}
use postgres_tde.Decoder.Appends.{Commutes, prefixed, process_message_body-prefixed}

module _ (io : Buffer) (same : (c c' : io.Buf) → io.bytes c ≡ io.bytes c' → c ≡ c') where
  open io use {Buf, size, move_front, drain, copy_out, peek_be}

  module _ {M : Type 0} (cb : Callbacks Buf M) (g : M → M) (pf pb : Buf) where
    -- What a call leaves, with the same before its replacement data.
    abbrev pub outcome_after : Outcome Buf M → Outcome Buf M
    outcome_after o = record o {
      decoder = prefixed io same cb g pf pb o.decoder;
      callee = g o.callee;
    }

    consume-prefixed :
        (len : ℕ) (frontend : Bool) (p : MessageProcessor) (r : Message) (b : Buf) (d : Decoder Buf)
        (m : M)
        → Commutes cb g
        → let (rest, d₁, m₁) = consume io cb 5 len frontend p r b d m in
          ◌≡◌ {A = Buf × Decoder Buf × M}
            (consume io cb 5 len frontend p r b (prefixed io same cb g pf pb d) (g m))
            (rest, prefixed io same cb g pf pb d₁, g m₁)
    unfolding consume
    consume-prefixed len frontend p r b d m h =
        ap (λ (q : Decoder Buf × M). ((move_front len (drain 5 b)).1, q.0, q.1))
          (process_message_body-prefixed io same cb g pf pb (move_front len (drain 5 b)).0 frontend
            p r d m h)

    sync_message-prefixed :
        (p : MessageProcessor) (len : ℕ) (frontend : Bool) (b : Buf) (d : Decoder Buf) (m : M)
        → Commutes cb g
        → sync_message io cb p len frontend b (prefixed io same cb g pf pb d) (g m)
          ≡ outcome_after (sync_message io cb p len frontend b d m)
    unfolding sync_message
    sync_message-prefixed p len frontend b d m h =
        go (validate_message io (new_message p.factory) b 5 len).0 refl
      where
        read : Message
        read = (validate_message io (new_message p.factory) b 5 len).1

        go :
            (v : ValidationResult)
            → (validate_message io (new_message p.factory) b 5 len).0 ≡ v
            → sync_message io cb p len frontend b (prefixed io same cb g pf pb d) (g m)
              ≡ outcome_after (sync_message io cb p len frontend b d m)
        go validation_need_more_data e = rw (e, sync_message) refl
        go validation_failed e = rw (e, sync_message) refl
        go validation_ok e =
            rw (e, sync_message)
              (ap
                (λ (q : Buf × Decoder Buf × M). record {
                  result = ready_for_next;
                  input = q.0;
                  decoder = q.1;
                  callee = q.2;
                })
                (consume-prefixed len frontend p read b
                  (record d { replacement_message = some read }) m h))

    on_data_in_sync-prefixed :
        (frontend : Bool) (b : Buf) (d : Decoder Buf) (m : M)
        → Commutes cb g
        → on_data_in_sync io cb frontend b (prefixed io same cb g pf pb d) (g m)
          ≡ outcome_after (on_data_in_sync io cb frontend b d m)
    unfolding on_data_in_sync
    on_data_in_sync-prefixed frontend b d m h = elim (Bool-cases (ltb (size b) 5)) [
      | inl e ↦ rw (e, on_data_in_sync) refl
      | inr e ↦
          rw (e, on_data_in_sync)
            (sync_message-prefixed
              (find_processor (first_byte (copy_out b 0 1)) (message_group frontend))
              (sub32 (peek_be 4 b 1) 4) frontend b
              (record d { command = first_byte (copy_out b 0 1) }) m h)
    ]

    dispatch-prefixed :
        (s : State) (frontend : Bool) (b : Buf) (d : Decoder Buf) (m : M)
        → PastStartup s
        → Commutes cb g
        → dispatch io cb s frontend b (prefixed io same cb g pf pb d) (g m)
          ≡ outcome_after (dispatch io cb s frontend b d m)
    unfolding dispatch on_data_ignore
    dispatch-prefixed s frontend b d m decoding h = on_data_in_sync-prefixed frontend b d m h
    dispatch-prefixed s frontend b d m given_up h = refl

    pub on_data-prefixed :
        (frontend : Bool) (b : Buf) (d : Decoder Buf) (m : M)
        → PastStartup d.state
        → Commutes cb g
        → on_data io cb frontend b (prefixed io same cb g pf pb d) (g m)
          ≡ outcome_after (on_data io cb frontend b d m)
    unfolding on_data
    on_data-prefixed frontend b d m s h = dispatch-prefixed d.state frontend b d m s h
