-- ===== src/Decoder/Modes.antt =====
-- What the decoder does where it does not decode: it waits, it gives up, or it drops what it gets.
use postgres_tde.Base.{
  Bool, Bool-cases, Option, [], arith, false, inl, inr, ltb, refl, some, true, ℕ, ◌≡◌, ◌≢◌,
}
use postgres_tde.Buffer.{Buffer}
use postgres_tde.Message.Format.{
  ValidationResult, validation_failed, validation_ok, validation_need_more_data,
}
use postgres_tde.Protocol.{Message, new_message, validate_message}
use postgres_tde.Decoder.Table.{
  MessageProcessor, startup_msg_processor, find_processor, message_group,
}
use postgres_tde.Decoder.State.{
  State, init_state, in_sync_state, out_of_sync_state, encrypted_state, negotiating_upstream_ssl,
  ready_for_next, need_more_data, Decoder, Callbacks, Outcome,
}
use postgres_tde.Decoder.Progress.{drained}
use postgres_tde.Decoder.Step.{
  startup, init_message, on_data_init, sync_message, on_data_in_sync, on_data_ignore,
  on_data_in_negotiating, dispatch, on_data, startup_encrypted, startup_plain,
}
use postgres_tde.Decoder.Body.{sub32, first_byte}

module _ (io : Buffer) {M : Type 0} (cb : Callbacks (Buffer.Buf io) M) where
  open io use {Buf, bytes, size, size-bytes, drain, drain-bytes, peek_be, copy_out}

  -- The parts of the decoder that others can see, and the callee, are as before.
  pub record Untouched (d d' : Decoder Buf) (m m' : M) : Type 0 where
    pub state : d'.state ≡ d.state
    pub frontend : d'.frontend_replacement_data ≡ d.frontend_replacement_data
    pub backend : d'.backend_replacement_data ≡ d.backend_replacement_data
    pub storage : d'.temp_storage ≡ d.temp_storage
    pub callee : m' ≡ m

  -- The two states that are never left, and in which nothing is forwarded.
  pub data IsIgnoring : State → Type 0 where
    lost : IsIgnoring out_of_sync_state
    opaque : IsIgnoring encrypted_state

  dispatch_drops :
      (s : State) (frontend : Bool) (b : Buf) (d : Decoder Buf) (m : M)
      → IsIgnoring s
      → let o = dispatch io cb s frontend b d m in
        (o.result ≡ ready_for_next) × (bytes o.input ≡ []) × (o.decoder ≡ d) × (o.callee ≡ m)
  unfolding dispatch on_data_ignore
  dispatch_drops s frontend b d m lost = (refl, drained io b, refl, refl)
  dispatch_drops s frontend b d m opaque = (refl, drained io b, refl, refl)

  -- In the out-of-sync and the encrypted state, `onData` throws all of its input away, from either
  -- side, and leaves the decoder, its replacement data included, and the callee as they were.
  pub on_data_drops :
      (frontend : Bool) (b : Buf) (d : Decoder Buf) (m : M)
      → IsIgnoring d.state
      → let o = on_data io cb frontend b d m in
        (o.result ≡ ready_for_next) × (bytes o.input ≡ []) × (o.decoder ≡ d) × (o.callee ≡ m)
  unfolding on_data
  on_data_drops frontend b d m h = dispatch_drops d.state frontend b d m h

  -- A call that asks for more data has left its input and everything else alone.
  abbrev Waits : Buf → Decoder Buf → M → Outcome Buf M → Type 0
  Waits b d m o = o.result ≡ need_more_data → (o.input ≡ b) × Untouched d o.decoder m o.callee

  untouched :
      (d : Decoder Buf) (c : ℕ) (r : Option Message) (m : M)
      → Untouched d (record d { command = c; replacement_message = r }) m m
  untouched d c r m = record {
    state = refl;
    frontend = refl;
    backend = refl;
    storage = refl;
    callee = refl;
  }

  startup-never_waits :
      (len : ℕ) (r : Message) (b : Buf) (d : Decoder Buf) (m : M)
      → (startup io cb len r b d m).result ≢ need_more_data
  unfolding startup startup_encrypted startup_plain
  startup-never_waits len r b d m = ground arith

  init_message-Waits :
      (len : ℕ) (b : Buf) (d : Decoder Buf) (m : M) → Waits b d m (init_message io cb len b d m)
  unfolding init_message
  init_message-Waits len b d m =
      go (validate_message io (new_message startup_msg_processor.factory) b 4 len).0 refl
    where
      read : Message
      read = (validate_message io (new_message startup_msg_processor.factory) b 4 len).1

      go :
          (v : ValidationResult)
          → (validate_message io (new_message startup_msg_processor.factory) b 4 len).0 ≡ v
          → Waits b d m (init_message io cb len b d m)
      go validation_failed e = rw (e, init_message) (λ x. cc)
      go validation_need_more_data e =
          rw (e, init_message) (λ x. (refl, untouched d d.command (some read) m))
      go validation_ok e =
          rw (e, init_message)
            (λ x.
              absurd
                (startup-never_waits len read b (record d { replacement_message = some read }) m x))

  sync_message-Waits :
      (p : MessageProcessor) (len c : ℕ) (frontend : Bool) (b : Buf) (d : Decoder Buf) (m : M)
      → Waits b d m (sync_message io cb p len frontend b (record d { command = c }) m)
  unfolding sync_message
  sync_message-Waits p len c frontend b d m =
      go (validate_message io (new_message p.factory) b 5 len).0 refl
    where
      read : Message
      read = (validate_message io (new_message p.factory) b 5 len).1

      go :
          (v : ValidationResult)
          → (validate_message io (new_message p.factory) b 5 len).0 ≡ v
          → Waits b d m (sync_message io cb p len frontend b (record d { command = c }) m)
      go validation_failed e = rw (e, sync_message) (λ x. cc)
      go validation_need_more_data e =
          rw (e, sync_message) (λ x. (refl, untouched d c (some read) m))
      go validation_ok e = rw (e, sync_message) (λ x. cc)

  dispatch-Waits :
      (s : State) (frontend : Bool) (b : Buf) (d : Decoder Buf) (m : M)
      → Waits b d m (dispatch io cb s frontend b d m)
  unfolding dispatch on_data_init on_data_in_sync on_data_ignore on_data_in_negotiating
  dispatch-Waits init_state frontend b d m = elim (Bool-cases (ltb (size b) 4)) [
    | inl e ↦ rw e (λ x. (refl, untouched d d.command d.replacement_message m))
    | inr e ↦ elim (Bool-cases (ltb 10000 (peek_be 4 b 0))) [
      | inl f ↦ rw (e, f) (λ x. cc)
      | inr f ↦ rw (e, f) (init_message-Waits (sub32 (peek_be 4 b 0) 4) b d m)
    ]
  ]
  dispatch-Waits out_of_sync_state frontend b d m = λ x. cc
  dispatch-Waits encrypted_state frontend b d m = λ x. cc
  dispatch-Waits in_sync_state frontend b d m = elim (Bool-cases (ltb (size b) 5)) [
    | inl e ↦ rw e (λ x. (refl, untouched d d.command d.replacement_message m))
    | inr e ↦ rw e (
        sync_message-Waits (find_processor (first_byte (copy_out b 0 1)) (message_group frontend))
          (sub32 (peek_be 4 b 1) 4) (first_byte (copy_out b 0 1)) frontend b d m)
  ]
  dispatch-Waits negotiating_upstream_ssl true b d m = λ x. cc
  dispatch-Waits negotiating_upstream_ssl false b d m = λ x. cc

  -- When `onData` asks for more data, in whatever state, it has left the input as it was, has
  -- written nothing to either side and has not called the callee.
  pub on_data_waits :
      (frontend : Bool) (b : Buf) (d : Decoder Buf) (m : M)
      → (on_data io cb frontend b d m).result ≡ need_more_data
      → let o = on_data io cb frontend b d m in (o.input ≡ b) × Untouched d o.decoder m o.callee
  unfolding on_data
  on_data_waits frontend b d m h = dispatch-Waits d.state frontend b d m h
