-- ===== src/Decoder/Stable.antt =====
-- postgres_decoder.cc: a call of `onData`, and one with more data behind the same bytes.
use postgres_tde.Base.{
  Bool, Bool-cases, List, Option, ap, arith, false, inl, inr, length, ltb, refl, slice,
  slice_of_append, subst, sym, true, ℕ, ◌<◌, ◌∙◌, ◌≡◌, ◌≤◌, ◌⊎◌,
}
use mathlib.Core.Path.{subst₂}
use postgres_tde.Message.Extends.{Extends, Extends-length, Extends-peek_be}
use postgres_tde.Buffer.{Buffer}
use postgres_tde.Protocol.{Message, new_message, validate_message}
use postgres_tde.Decoder.Table.{MessageProcessor, find_processor, message_group}
use postgres_tde.Decoder.State.{in_sync_state, need_more_data, Decoder, Callbacks, Outcome}
use postgres_tde.Decoder.Body.{sub32, first_byte}
use postgres_tde.Decoder.Step.{sync_message, on_data_in_sync, dispatch, on_data}
use postgres_tde.Decoder.Repeats.{find_processor-PlainRepeats, message_group-PlainRepeats}
use postgres_tde.Decoder.Outcomes.{announced, Took, GaveUp, Waited}
use postgres_tde.Decoder.Continue.{
  TakesWhole, sync_message_more, validated_message_again, sync_message-validated_message,
}

module _ (io : Buffer) {M : Type 0} (cb : Callbacks (Buffer.Buf io) M) where
  open io use {Buf, bytes, size, size-bytes, peek_be, copy_out, copy_out-bytes}

  first_byte_more :
      (b b' : Buf) → Extends io b b' → 5 ≤ length (bytes b) → copy_out b' 0 1 ≡ copy_out b 0 1
  first_byte_more b b' x h =
      copy_out-bytes b' 0 1 (omega (arith, Extends-length io x, h))
      ∙ ap (slice 0 1) x.holds
      ∙ slice_of_append 0 1 (bytes b) x.more (omega (arith, h))
      ∙ sym (copy_out-bytes b 0 1 (omega (arith, h)))

  -- The call behind its length test.
  on_data_in_sync_long :
      (frontend : Bool) (b : Buf) (d : Decoder Buf) (m : M)
      → 5 ≤ length (bytes b)
      → let command = first_byte (copy_out b 0 1) in
        on_data_in_sync io cb frontend b d m
        ≡ sync_message io cb
            (find_processor command (message_group frontend))
            (announced io cb b)
            frontend
            b
            (record d { command = command })
            m
  unfolding on_data_in_sync
  on_data_in_sync_long frontend b d m h =
      let e : ltb (size b) 5 ≡ false = ground (arith, size-bytes b, h) in rw e refl

  on_data_in_sync_more :
      ((c c' : Buf) → bytes c ≡ bytes c' → c ≡ c')
      → (frontend : Bool) (b b' : Buf) (d : Decoder Buf) (m : M) → (x : Extends io b b')
      → d.state ≡ in_sync_state
      → let o = on_data_in_sync io cb frontend b d m in
        let o' = on_data_in_sync io cb frontend b' d m in
        TakesWhole io cb (announced io cb b) b o
        → Took io cb x.more o o' ⊎ (GaveUp io cb o o' ⊎ Waited io cb b d m o)
  unfolding on_data_in_sync
  on_data_in_sync_more same frontend b b' d m x sync whole =
      elim (Bool-cases (ltb (length (bytes b)) 5)) [
        | inl e ↦ inr (inr (short (ground (arith, e))))
        | inr e ↦ long (ground (arith, e))
      ]
    where
      command : ℕ
      command = first_byte (copy_out b 0 1)

      short : length (bytes b) < 5 → Waited io cb b d m (on_data_in_sync io cb frontend b d m)
      short h =
          let e : ltb (size b) 5 ≡ true = ground (arith, size-bytes b, h) in
          rw (e, on_data_in_sync)
            (record {
              need = refl;
              input = refl;
              callee = refl;
              decoder = (d.command, d.replacement_message, refl);
            })

      named :
          {o o' : Outcome Buf M}
          → Took io cb x.more o o'
            ⊎ (GaveUp io cb o o' ⊎ Waited io cb b (record d { command = command }) m o)
          → Took io cb x.more o o' ⊎ (GaveUp io cb o o' ⊎ Waited io cb b d m o)
      named (inl t) = inl t
      named (inr (inl g)) = inr (inl g)
      named (inr (inr w)) =
          inr (
            inr (record { need = w.need; input = w.input; callee = w.callee; decoder = w.decoder }))

      step : List ℕ → ℕ → Outcome Buf M
      step head n =
          sync_message io cb (find_processor (first_byte head) (message_group frontend)) n frontend
            b' (record d { command = first_byte head }) m

      long :
          5 ≤ length (bytes b)
          → let o = on_data_in_sync io cb frontend b d m in
            Took io cb x.more o (on_data_in_sync io cb frontend b' d m)
            ⊎ (GaveUp io cb o (on_data_in_sync io cb frontend b' d m) ⊎ Waited io cb b d m o)
      long h =
          let e = on_data_in_sync_long frontend b d m h in
          let e' =
            on_data_in_sync_long frontend b' d m (omega (arith, Extends-length io x, h))
            ∙ ap (λ head. step head (announced io cb b')) (first_byte_more b b' x h)
            ∙ ap (λ n. step (copy_out b 0 1) (sub32 n 4))
                (Extends-peek_be io x 4 1 (omega (arith, h))) in
          subst₂ (λ o o'. Took io cb x.more o o' ⊎ (GaveUp io cb o o' ⊎ Waited io cb b d m o))
            (sym e) (sym e')
            (named (
              sync_message_more io cb same (find_processor command (message_group frontend))
                (announced io cb b) frontend b b' (record d { command = command }) m
                (find_processor-PlainRepeats command (message_group frontend)
                  (message_group-PlainRepeats frontend))
                x h sync (subst (TakesWhole io cb (announced io cb b) b) e whole)))

  -- A call repeats what an earlier one that waited has set.
  on_data_in_sync_again :
      (frontend : Bool) (b' : Buf) (d : Decoder Buf) (m : M) (c : ℕ) (r : Option Message)
      → 5 ≤ length (bytes b')
      → on_data_in_sync io cb frontend b' (record d { command = c; replacement_message = r }) m
        ≡ on_data_in_sync io cb frontend b' d m
  on_data_in_sync_again frontend b' d m c r h =
      on_data_in_sync_long frontend b' (record d { command = c; replacement_message = r }) m h
      ∙ sync_message_again (find_processor (first_byte (copy_out b' 0 1)) (message_group frontend))
          (announced io cb b')
      ∙ sym (on_data_in_sync_long frontend b' d m h)
    where
      d₁ : Decoder Buf
      d₁ = record d { command = first_byte (copy_out b' 0 1); replacement_message = r }

      d₂ : Decoder Buf
      d₂ = record d { command = first_byte (copy_out b' 0 1) }

      sync_message_again :
          (p : MessageProcessor) (n : ℕ)
          → sync_message io cb p n frontend b' d₁ m ≡ sync_message io cb p n frontend b' d₂ m
      sync_message_again p n =
          sync_message-validated_message io cb p n frontend b' d₁ m
          ∙ validated_message_again io cb (validate_message io (new_message p.factory) b' 5 n) p n
              frontend b' d₂ r m
          ∙ sym (sync_message-validated_message io cb p n frontend b' d₂ m)

  -- `o` asked for more data, and the next call, on the longer buffer, does what it would have done
  -- without `o`.
  pub record Resumed (frontend : Bool) (b b' : Buf) (d : Decoder Buf) (m : M) (o : Outcome Buf M)
      : Type 0 where
    pub need : o.result ≡ need_more_data
    pub input : o.input ≡ b
    pub callee : o.callee ≡ m
    pub sync : o.decoder.state ≡ in_sync_state
    pub again : on_data io cb frontend b' o.decoder m ≡ on_data io cb frontend b' d m

  on_data-in_sync :
      (frontend : Bool) (b : Buf) (d : Decoder Buf) (m : M)
      → d.state ≡ in_sync_state
      → on_data io cb frontend b d m ≡ on_data_in_sync io cb frontend b d m
  unfolding on_data dispatch
  on_data-in_sync frontend b d m sync = ap (λ s. dispatch io cb s frontend b d m) sync

  resumed :
      (frontend : Bool) (b b' : Buf) (d : Decoder Buf) (m : M) (o : Outcome Buf M)
      → Extends io b b'
      → d.state ≡ in_sync_state
      → o ≡ on_data_in_sync io cb frontend b d m
      → Waited io cb b d m o
      → Resumed frontend b b' d m o
  unfolding on_data_in_sync
  resumed frontend b b' d m o x sync same w = record {
    need = w.need;
    input = w.input;
    callee = w.callee;
    sync = stays;
    again =
        on_data-in_sync frontend b' o.decoder m stays
        ∙ elim (Bool-cases (ltb (length (bytes b')) 5)) [
          | inl e ↦ ap (λ d. on_data_in_sync io cb frontend b' d m) (short (ground (arith, e)))
          | inr e ↦
              let (c, r, set) = w.decoder in
              ap (λ d. on_data_in_sync io cb frontend b' d m) set
              ∙ on_data_in_sync_again frontend b' d m c r (ground (arith, e))
        ]
        ∙ sym (on_data-in_sync frontend b' d m sync);
  }
    where
      stays : o.decoder.state ≡ in_sync_state
      stays = let (c, r, set) = w.decoder in ap (λ (q : Decoder Buf). q.state) set ∙ sync

      short : length (bytes b') < 5 → o.decoder ≡ d
      short h =
          let e : ltb (size b) 5 ≡ true = ground (arith, size-bytes b, h, Extends-length io x) in
          ap (λ (o : Outcome Buf M). o.decoder) same ∙ rw (e, on_data_in_sync) refl

  -- Where buffers with the same bytes are the same: a call of `onData` in sync on a buffer and one
  -- on a buffer with more behind the same bytes, where a message that the first call takes is all in
  -- the first buffer. Both take the same message, leave the same decoder, in sync, and callee, and
  -- what is left is the same but for the additional bytes; or both give up and drop all data; or the
  -- first asks for more data, and calling it again with the longer buffer does what the second does.
  pub on_data_more :
      ((c c' : Buf) → bytes c ≡ bytes c' → c ≡ c')
      → (frontend : Bool) (b b' : Buf) (d : Decoder Buf) (m : M) → (x : Extends io b b')
      → d.state ≡ in_sync_state
      → let o = on_data io cb frontend b d m in
        let o' = on_data io cb frontend b' d m in
        TakesWhole io cb (announced io cb b) b o
        → Took io cb x.more o o' ⊎ (GaveUp io cb o o' ⊎ Resumed frontend b b' d m o)
  on_data_more same frontend b b' d m x sync whole =
      subst₂ (λ o o'. Took io cb x.more o o' ⊎ (GaveUp io cb o o' ⊎ Resumed frontend b b' d m o))
        (sym (on_data-in_sync frontend b d m sync)) (sym (on_data-in_sync frontend b' d m sync))
        (go (
          on_data_in_sync_more same frontend b b' d m x sync (
            subst (TakesWhole io cb (announced io cb b) b) (on_data-in_sync frontend b d m sync)
              whole)))
    where
      go :
          let o = on_data_in_sync io cb frontend b d m in
          let o' = on_data_in_sync io cb frontend b' d m in
          Took io cb x.more o o' ⊎ (GaveUp io cb o o' ⊎ Waited io cb b d m o)
          → Took io cb x.more o o' ⊎ (GaveUp io cb o o' ⊎ Resumed frontend b b' d m o)
      go (inl t) = inl t
      go (inr (inl g)) = inr (inl g)
      go (inr (inr w)) = inr (inr (resumed frontend b b' d m _ x sync refl w))
