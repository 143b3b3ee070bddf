-- ===== src/Decoder/Continue.antt =====
-- postgres_decoder.cc: a message that the decoder takes off a buffer, and off one with more data
-- behind the same bytes.
use postgres_tde.Base.{
  Bool, Option, ap, inl, inr, length, refl, some, subst, sym, ℕ, ◌++◌, ◌+◌, ◌∙◌, ◌≡◌, ◌≢◌, ◌≤◌, ◌⊎◌,
}
use mathlib.Core.Path.{subst₂}
use postgres_tde.Message.Stable.{PlainRepeats, validate-stable}
use postgres_tde.Message.Extends.{Extends}
use postgres_tde.Buffer.{Buffer}
use postgres_tde.Message.Format.{
  Val, Validated, ValidationResult, validation_failed, validation_ok, validation_need_more_data,
}
use postgres_tde.Protocol.{MsgClass, body, Message, message, new_message, validate_message}
use postgres_tde.Decoder.Table.{MessageProcessor}
use postgres_tde.Decoder.State.{in_sync_state, ready_for_next, Decoder, Callbacks, Outcome}
use postgres_tde.Decoder.Body.{consume}
use postgres_tde.Decoder.Step.{sync_message, wait_for_data, lose_sync}
use postgres_tde.Decoder.InSync.{consume-state}
use postgres_tde.Decoder.Progress.{drained}
use postgres_tde.Decoder.Outcomes.{consume_more, Took, GaveUp, Waited}

module _ (io : Buffer) {M : Type 0} (cb : Callbacks (Buffer.Buf io) M) where
  open io use {Buf, bytes, size, size-bytes, peek_be}

  validate_message_more :
      (k : MsgClass) (b b' : Buf) (len : ℕ)
      → PlainRepeats (body k)
      → Extends io b b'
      → 5 ≤ length (bytes b)
      → (validate_message io (new_message k) b 5 len).0 ≢ validation_need_more_data
      → validate_message io (new_message k) b' 5 len ≡ validate_message io (new_message k) b 5 len
  unfolding validate_message
  validate_message_more k b b' len p x h decided =
      ap (λ (r : Validated (Val (body k))). (r.result, message k r.object))
        (validate-stable io x (body k) 5 (record { pos = 5; left = len }) p h decided)

  -- `sync_message` behind the validation.
  pub validated_message :
      ValidationResult × Message
      → MessageProcessor
      → ℕ
      → Bool
      → Buf
      → Decoder Buf
      → M
      → Outcome Buf M
  unfolding consume
  validated_message (validation_need_more_data, r) p len frontend b d m =
      wait_for_data io cb b (record d { replacement_message = some r }) m
  validated_message (validation_failed, r) p len frontend b d m =
      lose_sync io cb b (record d { replacement_message = some r }) m
  validated_message (validation_ok, r) p len frontend b d m =
      let (rest, d₂, m₂) =
        consume io cb 5 len frontend p r b (record d { replacement_message = some r }) m in
      record { result = ready_for_next; input = rest; decoder = d₂; callee = m₂ }

  pub sync_message-validated_message :
      (p : MessageProcessor) (len : ℕ) (frontend : Bool) (b : Buf) (d : Decoder Buf) (m : M)
      → sync_message io cb p len frontend b d m
        ≡ validated_message
            (validate_message io (new_message p.factory) b 5 len)
            p
            len
            frontend
            b
            d
            m
  unfolding sync_message validated_message
  sync_message-validated_message p len frontend b d m =
      go (validate_message io (new_message p.factory) b 5 len).0 refl
    where
      go :
          (v : ValidationResult)
          → (validate_message io (new_message p.factory) b 5 len).0 ≡ v
          → sync_message io cb p len frontend b d m
            ≡ validated_message
                (validate_message io (new_message p.factory) b 5 len)
                p
                len
                frontend
                b
                d
                m
      go validation_need_more_data e = rw (e, sync_message, validated_message) refl
      go validation_failed e = rw (e, sync_message, validated_message) refl
      go validation_ok e = rw (e, sync_message, validated_message) refl

  pub validated_message_again :
      (v : ValidationResult × Message) (p : MessageProcessor) (len : ℕ) (frontend : Bool) (b : Buf)
      (d : Decoder Buf) (r : Option Message) (m : M)
      → validated_message v p len frontend b (record d { replacement_message = r }) m
        ≡ validated_message v p len frontend b d m
  unfolding validated_message
  validated_message_again (validation_need_more_data, r') p len frontend b d r m = refl
  validated_message_again (validation_failed, r') p len frontend b d r m = refl
  validated_message_again (validation_ok, r') p len frontend b d r m = refl

  -- What a call that stays in sync takes is all in the buffer.
  abbrev pub TakesWhole : ℕ → Buf → Outcome Buf M → Type 0
  TakesWhole len b o =
      o.result ≡ ready_for_next → o.decoder.state ≡ in_sync_state → 5 + len ≤ length (bytes b)

  validated_message_more :
      ((c c' : Buf) → bytes c ≡ bytes c' → c ≡ c')
      → (v v' : ValidationResult × Message) (p : MessageProcessor) (len : ℕ) (frontend : Bool)
        (b b' : Buf) (d : Decoder Buf) (m : M)
      → (x : Extends io b b') → d.state ≡ in_sync_state
      → (v.0 ≢ validation_need_more_data → v' ≡ v)
      → let o = validated_message v p len frontend b d m in
        let o' = validated_message v' p len frontend b' d m in
        TakesWhole len b o → Took io cb x.more o o' ⊎ (GaveUp io cb o o' ⊎ Waited io cb b d m o)
  unfolding validated_message
  validated_message_more same (validation_need_more_data, r) v' p len frontend b b' d m x sync agree
        whole =
      inr
        (inr (record { need = refl; input = refl; callee = refl; decoder = (d.command, r', refl) }))
    where
      r' : Option Message
      r' = some r
  validated_message_more same (validation_failed, r) v' p len frontend b b' d m x sync agree whole =
      let o = validated_message (validation_failed, r) p len frontend b d m in
      inr (
        inl (
          subst (λ w. GaveUp io cb o (validated_message w p len frontend b' d m))
            (sym (agree (λ n. cc)))
            (record {
              ready = refl;
              ready' = refl;
              input = drained io b;
              input' = drained io b';
              decoder = refl;
              callee = refl;
              lost = refl;
            })))
  validated_message_more same (validation_ok, r) v' p len frontend b b' d m x sync agree whole =
      let o = validated_message (validation_ok, r) p len frontend b d m in
      inl (
        subst (λ w. Took io cb x.more o (validated_message w p len frontend b' d m))
          (sym (agree (λ n. cc)))
          (record {
            ready = refl;
            ready' = refl;
            input = (taken (whole refl (stays ∙ sync))).0;
            decoder = (taken (whole refl (stays ∙ sync))).1;
            callee = (taken (whole refl (stays ∙ sync))).2;
            sync = stays ∙ sync;
          }))
    where
      next : Decoder Buf
      next = record d { replacement_message = some r }

      stays : (consume io cb 5 len frontend p r b next m).1.state ≡ d.state
      stays = consume-state io cb len frontend p r b next m

      taken :
          5 + len ≤ length (bytes b)
          → let (rest, d₁, m₁) = consume io cb 5 len frontend p r b next m in
            let (rest', d₂, m₂) = consume io cb 5 len frontend p r b' next m in
            (bytes rest' ≡ bytes rest ++ x.more) × (d₂ ≡ d₁) × (m₂ ≡ m₁)
      taken enough = consume_more io cb same len frontend p r b b' next m x enough

  pub sync_message_more :
      ((c c' : Buf) → bytes c ≡ bytes c' → c ≡ c')
      → (p : MessageProcessor) (len : ℕ) (frontend : Bool) (b b' : Buf) (d : Decoder Buf) (m : M)
      → PlainRepeats (body p.factory)
      → (x : Extends io b b') → 5 ≤ length (bytes b)
      → d.state ≡ in_sync_state
      → let o = sync_message io cb p len frontend b d m in
        let o' = sync_message io cb p len frontend b' d m in
        TakesWhole len b o → Took io cb x.more o o' ⊎ (GaveUp io cb o o' ⊎ Waited io cb b d m o)
  sync_message_more same p len frontend b b' d m plain x h sync whole =
      let e = sync_message-validated_message p len frontend b d m in
      let e' = sync_message-validated_message p len frontend b' d m in
      subst₂ (λ o o'. Took io cb x.more o o' ⊎ (GaveUp io cb o o' ⊎ Waited io cb b d m o)) (sym e)
        (sym e')
        (validated_message_more same (validate_message io (new_message p.factory) b 5 len)
          (validate_message io (new_message p.factory) b' 5 len) p len frontend b b' d m x sync
          (validate_message_more p.factory b b' len plain x h) (subst (TakesWhole len b) e whole))
