-- ===== src/Decoder/Progress.antt =====
-- Each call of `onData` that asks to be called again has taken bytes off its input.
use postgres_tde.Base.{
  Bool, [], ap, arith, drop_all, false, length, length-drop, refl, some, true, ℕ, ◌+◌, ◌<◌, ◌∙◌,
  ◌≡◌, ◌≤◌,
}
use postgres_tde.Buffer.{Buffer}
use postgres_tde.Message.Format.{
  ValidationResult, validation_failed, validation_ok, validation_need_more_data,
}
use postgres_tde.Protocol.{Message, new_message, validate_message}
use postgres_tde.Decoder.Table.{
  MessageProcessor, startup_msg_processor, find_processor, message_group,
}
use postgres_tde.Decoder.State.{
  State, init_state, in_sync_state, out_of_sync_state, encrypted_state, negotiating_upstream_ssl,
  ready_for_next, Decoder, Callbacks, Outcome,
}
use postgres_tde.Decoder.Step.{
  startup, init_message, on_data_init, sync_message, on_data_in_sync, on_data_ignore,
  on_data_in_negotiating, dispatch, on_data,
}
use postgres_tde.Decoder.Body.{sub32, consume, first_byte}

-- Draining a buffer by its length leaves nothing.
pub drained : (io : Buffer) (b : Buffer.Buf io) → io.bytes (io.drain (io.size b) b) ≡ []
drained io b =
    ap (λ k. io.bytes (io.drain k b)) (io.size-bytes b)
    ∙ io.drain-bytes (length (io.bytes b)) b (omega arith)
    ∙ drop_all (io.bytes b)

module _ (io : Buffer) {M : Type 0} (cb : Callbacks (Buffer.Buf io) M) where
  open io use {Buf, bytes, size, size-bytes, drain, drain-bytes, move_front-le, peek_be, copy_out}

  -- A call that ends with `ready_for_next` leaves fewer than `n` bytes.
  abbrev Shrinks : ℕ → Outcome Buf M → Type 0
  Shrinks n o = o.result ≡ ready_for_next → length (bytes o.input) < n

  consume-le :
      (header len : ℕ) (frontend : Bool) (p : MessageProcessor) (r : Message) (b : Buf)
      (d : Decoder Buf) (m : M)
      → header ≤ length (bytes b)
      → length (bytes (consume io cb header len frontend p r b d m).0) + header ≤ length (bytes b)
  unfolding consume
  consume-le header len frontend p r b d m h = omega (
    arith,
    move_front-le len (drain header b),
    ap length (drain-bytes header b h),
    length-drop header (bytes b),
  )

  startup-Shrinks :
      (len : ℕ) (r : Message) (b : Buf) (d : Decoder Buf) (m : M)
      → 4 ≤ length (bytes b)
      → Shrinks (length (bytes b)) (startup io cb len r b d m)
  unfolding startup
  startup-Shrinks len r b d m h e =
      omega (arith, consume-le 4 len true startup_msg_processor r b _ _ h)

  init_message-Shrinks :
      (len : ℕ) (b : Buf) (d : Decoder Buf) (m : M)
      → 4 ≤ length (bytes b)
      → Shrinks (length (bytes b)) (init_message io cb len b d m)
  unfolding init_message
  init_message-Shrinks len b d m h =
      go (validate_message io (new_message startup_msg_processor.factory) b 4 len).0 refl
    where
      read : Message
      read = (validate_message io (new_message startup_msg_processor.factory) b 4 len).1

      go :
          (v : ValidationResult)
          → (validate_message io (new_message startup_msg_processor.factory) b 4 len).0 ≡ v
          → Shrinks (length (bytes b)) (init_message io cb len b d m)
      go validation_failed e = rw (e, init_message) (λ _. omega (arith, ap length (drained io b)))
      go validation_need_more_data e = rw (e, init_message) (λ x. cc)
      go validation_ok e =
          rw (e, init_message)
            (startup-Shrinks len read b (record d { replacement_message = some read }) m h)

  sync_message-Shrinks :
      (p : MessageProcessor) (len : ℕ) (frontend : Bool) (b : Buf) (d : Decoder Buf) (m : M)
      → 5 ≤ length (bytes b)
      → Shrinks (length (bytes b)) (sync_message io cb p len frontend b d m)
  unfolding sync_message
  sync_message-Shrinks p len frontend b d m h =
      go (validate_message io (new_message p.factory) b 5 len).0 refl
    where
      read : Message
      read = (validate_message io (new_message p.factory) b 5 len).1

      go :
          (v : ValidationResult)
          → (validate_message io (new_message p.factory) b 5 len).0 ≡ v
          → Shrinks (length (bytes b)) (sync_message io cb p len frontend b d m)
      go validation_failed e = rw (e, sync_message) (λ _. omega (arith, ap length (drained io b)))
      go validation_need_more_data e = rw (e, sync_message) (λ x. cc)
      go validation_ok e =
          rw (e, sync_message)
            (λ _. omega (
              arith,
              consume-le 5 len frontend p read b (record d { replacement_message = some read }) m h,
            ))

  on_data_init-Shrinks :
      (b : Buf) (d : Decoder Buf) (m : M)
      → 0 < length (bytes b)
      → Shrinks (length (bytes b)) (on_data_init io cb b d m)
  unfolding on_data_init
  on_data_init-Shrinks b d m h = ground (
    arith,
    size-bytes b,
    ap length (drained io b),
    init_message-Shrinks (sub32 (peek_be 4 b 0) 4) b d m,
  )

  on_data_in_sync-Shrinks :
      (frontend : Bool) (b : Buf) (d : Decoder Buf) (m : M)
      → 0 < length (bytes b)
      → Shrinks (length (bytes b)) (on_data_in_sync io cb frontend b d m)
  unfolding on_data_in_sync
  on_data_in_sync-Shrinks frontend b d m h =
      let command = first_byte (copy_out b 0 1) in
      ground (
        arith,
        size-bytes b,
        sync_message-Shrinks (find_processor command (message_group frontend))
            (sub32 (peek_be 4 b 1) 4) frontend b (record d { command = command }) m,
      )

  dispatch-Shrinks :
      (s : State) (frontend : Bool) (b : Buf) (d : Decoder Buf) (m : M)
      → 0 < length (bytes b)
      → Shrinks (length (bytes b)) (dispatch io cb s frontend b d m)
  unfolding dispatch on_data_ignore on_data_in_negotiating
  dispatch-Shrinks init_state frontend b d m h = on_data_init-Shrinks b d m h
  dispatch-Shrinks out_of_sync_state frontend b d m h = λ _. omega (arith, ap length (drained io b))
  dispatch-Shrinks encrypted_state frontend b d m h = λ _. omega (arith, ap length (drained io b))
  dispatch-Shrinks in_sync_state frontend b d m h = on_data_in_sync-Shrinks frontend b d m h
  dispatch-Shrinks negotiating_upstream_ssl true b d m h =
      λ _. omega (arith, ap length (drained io b))
  dispatch-Shrinks negotiating_upstream_ssl false b d m h = λ e. cc

  -- In every state, a call of `onData` on a buffer that is not empty either leaves fewer bytes in
  -- it or does not return `ReadyForNext`.
  pub on_data-shrinks :
      (frontend : Bool) (b : Buf) (d : Decoder Buf) (m : M)
      → 0 < length (bytes b)
      → (on_data io cb frontend b d m).result ≡ ready_for_next
      → length (bytes (on_data io cb frontend b d m).input) < length (bytes b)
  unfolding on_data
  on_data-shrinks frontend b d m h = dispatch-Shrinks d.state frontend b d m h
