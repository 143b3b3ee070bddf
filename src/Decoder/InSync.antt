-- ===== src/Decoder/InSync.antt =====
-- postgres_decoder.cc: the state of the decoder while it decodes messages.
use postgres_tde.Base.{
  Bool, Bool-cases, List, Option, [], arith, inl, inr, ltb, none, refl, some, subst, sym, ℕ, ◌∙◌,
  ◌∷◌, ◌≡◌, ◌≢◌,
}
use postgres_tde.Buffer.{Buffer}
use postgres_tde.Message.Format.{
  Val, ValidationResult, validation_failed, validation_ok, validation_need_more_data,
}
use postgres_tde.Protocol.{
  MsgClass, query_message, parse_message, row_description_message, data_row_message,
  command_complete_message, empty_query_response_message, error_response_message, body, Message,
  new_message, validate_message, write_typed,
}
use postgres_tde.Decoder.Table.{
  MsgAction, on_query, on_row_description, on_data_row, on_command_complete,
  on_empty_query_response, on_error_response, on_parse, MessageProcessor, find_processor,
  message_group,
}
use postgres_tde.Decoder.State.{
  State, in_sync_state, out_of_sync_state, Handler, stopped, Decoder, Callbacks,
}
use postgres_tde.Decoder.Body.{
  sub32, first_byte, emit_backend_message, emit_all, hand_over, run_action, run_actions,
  write_replacement, process_message_body, consume, cast_query, cast_parse, cast_row_description,
  cast_data_row, cast_command_complete, cast_empty_query_response, cast_error_response,
}
use postgres_tde.Decoder.Step.{sync_message, on_data_in_sync, dispatch, on_data_ignore, on_data}

-- In sync, or out of it: the states of a connection whose startup is over and that does not use
-- TLS that the decoder cannot look into.
pub data PastStartup : State → Type 0 where
  decoding : PastStartup in_sync_state
  given_up : PastStartup out_of_sync_state

module _ (io : Buffer) {M : Type 0} (cb : Callbacks (Buffer.Buf io) M) where
  open io use {Buf, size, copy_out, peek_be}

  emit_all-state :
      (ms : List (Option Message)) (d : Decoder Buf) → (emit_all io cb ms d).state ≡ d.state
  unfolding emit_all emit_backend_message
  emit_all-state [] d = refl
  emit_all-state (none ∷ ms) d = emit_all-state ms _
  emit_all-state (some r ∷ ms) d =
      emit_all-state ms _ ∙ go (write_typed io r d.backend_replacement_data) refl
    where
      go :
          (w : Option Buf)
          → write_typed io r d.backend_replacement_data ≡ w
          → (emit_backend_message io cb (some r) d).state ≡ d.state
      go none e = rw (e, emit_backend_message) refl
      go (some to) e = rw (e, emit_backend_message) refl

  hand_over-state :
      (k : MsgClass) (v : Option (Val (body k))) (handler : Handler M k) (d : Decoder Buf) (m : M)
      → (hand_over io cb k v handler d m).0.state ≡ d.state
  unfolding hand_over
  hand_over-state k none handler d m = refl
  hand_over-state k (some v) handler d m = emit_all-state (handler v m).emitted d

  run_action-state :
      (a : MsgAction) (r : Message) (d : Decoder Buf) (m : M)
      → (run_action io cb a r d m).0.state ≡ d.state
  unfolding run_action
  run_action-state on_query r d m =
      hand_over-state query_message (cast_query r) cb.process_query d m
  run_action-state on_parse r d m =
      hand_over-state parse_message (cast_parse r) cb.process_parse d m
  run_action-state on_row_description r d m =
      hand_over-state row_description_message (cast_row_description r) cb.process_row_description d
        m
  run_action-state on_data_row r d m =
      hand_over-state data_row_message (cast_data_row r) cb.process_data_row d m
  run_action-state on_command_complete r d m =
      hand_over-state command_complete_message (cast_command_complete r) cb.process_command_complete
        d m
  run_action-state on_empty_query_response r d m =
      hand_over-state empty_query_response_message (cast_empty_query_response r)
        cb.process_empty_query_response d m
  run_action-state on_error_response r d m =
      hand_over-state error_response_message (cast_error_response r) cb.process_error_response d m

  run_actions-state :
      (as_ : List MsgAction) (d : Decoder Buf) (m : M)
      → (run_actions io cb as_ d m).0.state ≡ d.state
  unfolding run_actions
  run_actions-state [] d m = refl
  run_actions-state (a ∷ as_) d m = go d.replacement_message refl (λ d m. run_actions-state as_ d m)
    where
      go :
          (r : Option Message)
          → d.replacement_message ≡ r
          → ((d : Decoder Buf) (m : M) → (run_actions io cb as_ d m).0.state ≡ d.state)
          → (run_actions io cb (a ∷ as_) d m).0.state ≡ d.state
      go none e ih = rw (e, run_actions) refl
      go (some r) e ih =
          rw (e, run_actions)
            (ih (run_action io cb a r d m).0 (run_action io cb a r d m).1
              ∙ run_action-state a r d m)

  write_replacement-state :
      (frontend : Bool) (data_ : Buf) (d : Decoder Buf)
      → (write_replacement io cb frontend data_ d).state ≡ d.state
  unfolding write_replacement
  write_replacement-state frontend data_ d = ground arith

  process_message_body-state :
      (data_ : Buf) (frontend : Bool) (p : MessageProcessor) (r : Message) (d : Decoder Buf) (m : M)
      → (process_message_body io cb data_ frontend p r d m).0.state ≡ d.state
  unfolding process_message_body
  process_message_body-state data_ frontend p r d m =
      write_replacement-state frontend data_ _ ∙ run_actions-state p.actions _ m

  pub consume-state :
      (len : ℕ) (frontend : Bool) (p : MessageProcessor) (r : Message) (b : Buf) (d : Decoder Buf)
      (m : M)
      → (consume io cb 5 len frontend p r b d m).1.state ≡ d.state
  unfolding consume
  consume-state len frontend p r b d m = process_message_body-state _ frontend p r d m

  sync_message-PastStartup :
      (p : MessageProcessor) (len : ℕ) (frontend : Bool) (b : Buf) (d : Decoder Buf) (m : M)
      → PastStartup d.state
      → PastStartup (sync_message io cb p len frontend b d m).decoder.state
  unfolding sync_message
  sync_message-PastStartup p len frontend b d m h =
      go (validate_message io (new_message p.factory) b 5 len).0 refl
    where
      read : Message
      read = (validate_message io (new_message p.factory) b 5 len).1

      go :
          (v : ValidationResult)
          → (validate_message io (new_message p.factory) b 5 len).0 ≡ v
          → PastStartup (sync_message io cb p len frontend b d m).decoder.state
      go validation_need_more_data e = rw (e, sync_message) h
      go validation_failed e = rw (e, sync_message) given_up
      go validation_ok e =
          rw (e, sync_message)
            (subst PastStartup
              (sym (
                consume-state len frontend p read b (record d { replacement_message = some read })
                  m))
              h)

  on_data_in_sync-PastStartup :
      (frontend : Bool) (b : Buf) (d : Decoder Buf) (m : M)
      → PastStartup d.state
      → PastStartup (on_data_in_sync io cb frontend b d m).decoder.state
  unfolding on_data_in_sync
  on_data_in_sync-PastStartup frontend b d m h = elim (Bool-cases (ltb (size b) 5)) [
    | inl e ↦ rw (e, on_data_in_sync) h
    | inr e ↦
        let command = first_byte (copy_out b 0 1) in
        rw (e, on_data_in_sync)
          (sync_message-PastStartup (find_processor command (message_group frontend))
            (sub32 (peek_be 4 b 1) 4) frontend b (record d { command = command }) m h)
  ]

  dispatch-PastStartup :
      (s : State) (frontend : Bool) (b : Buf) (d : Decoder Buf) (m : M)
      → s ≡ d.state
      → PastStartup s
      → PastStartup (dispatch io cb s frontend b d m).decoder.state
  unfolding dispatch on_data_ignore
  dispatch-PastStartup s frontend b d m e decoding =
      on_data_in_sync-PastStartup frontend b d m (subst PastStartup e decoding)
  dispatch-PastStartup s frontend b d m e given_up = subst PastStartup e given_up

  -- These states are kept: `onData` goes to no other.
  pub on_data-PastStartup :
      (frontend : Bool) (b : Buf) (d : Decoder Buf) (m : M)
      → PastStartup d.state
      → PastStartup (on_data io cb frontend b d m).decoder.state
  unfolding on_data
  on_data-PastStartup frontend b d m h = dispatch-PastStartup d.state frontend b d m refl h

  sync_message-never_stops :
      (p : MessageProcessor) (len : ℕ) (frontend : Bool) (b : Buf) (d : Decoder Buf) (m : M)
      → (sync_message io cb p len frontend b d m).result ≢ stopped
  unfolding sync_message
  sync_message-never_stops p len frontend b d m =
      go (validate_message io (new_message p.factory) b 5 len).0 refl
    where
      go :
          (v : ValidationResult)
          → (validate_message io (new_message p.factory) b 5 len).0 ≡ v
          → (sync_message io cb p len frontend b d m).result ≢ stopped
      go validation_need_more_data e = rw (e, sync_message) (λ x. cc)
      go validation_failed e = rw (e, sync_message) (λ x. cc)
      go validation_ok e = rw (e, sync_message) (λ x. cc)

  dispatch-never_stops :
      (s : State) (frontend : Bool) (b : Buf) (d : Decoder Buf) (m : M)
      → PastStartup s
      → (dispatch io cb s frontend b d m).result ≢ stopped
  unfolding dispatch on_data_ignore on_data_in_sync
  dispatch-never_stops s frontend b d m given_up = λ x. cc
  dispatch-never_stops s frontend b d m decoding = elim (Bool-cases (ltb (size b) 5)) [
    | inl e ↦ rw (e, on_data_in_sync) (λ x. cc)
    | inr e ↦
        let command = first_byte (copy_out b 0 1) in
        rw (e, on_data_in_sync)
          (sync_message-never_stops (find_processor command (message_group frontend))
            (sub32 (peek_be 4 b 1) 4) frontend b (record d { command = command }) m)
  ]

  pub on_data-never_stops :
      (frontend : Bool) (b : Buf) (d : Decoder Buf) (m : M)
      → PastStartup d.state
      → (on_data io cb frontend b d m).result ≢ stopped
  unfolding on_data
  on_data-never_stops frontend b d m h = dispatch-never_stops d.state frontend b d m h
