-- ===== src/Decoder/Outcomes.antt =====
-- postgres_decoder.cc: what a call on a buffer leaves, and one on a buffer with more data behind the
-- same bytes.
use postgres_tde.Base.{
  Bool, List, Option, [], ap, arith, drop, drop_of_append, length, length-append, length-drop, sym,
  take, take_of_append, ℕ, ◌++◌, ◌+◌, ◌∙◌, ◌≡◌, ◌≤◌,
}
use postgres_tde.Message.Extends.{Extends, Extends-length}
use postgres_tde.Buffer.{Buffer}
use postgres_tde.Protocol.{Message}
use postgres_tde.Decoder.Table.{MessageProcessor}
use postgres_tde.Decoder.State.{
  in_sync_state, out_of_sync_state, ready_for_next, need_more_data, Decoder, Callbacks, Outcome,
}
use postgres_tde.Decoder.Body.{sub32, process_message_body, consume}

module _ (io : Buffer) {M : Type 0} (cb : Callbacks (Buffer.Buf io) M) where
  open io use {
    Buf, bytes, size, size-bytes, drain, drain-bytes, move_front, move_front-bytes, peek_be,
    copy_out, copy_out-bytes,
  }

  -- The length of the body that the header at the start of the buffer announces.
  abbrev pub announced : Buf → ℕ
  announced b = sub32 (peek_be 4 b 1) 4

  -- Taking a message off a buffer and off one that has more behind the same bytes.
  pub consume_more :
      ((c c' : Buf) → bytes c ≡ bytes c' → c ≡ c')
      → (len : ℕ) (frontend : Bool) (p : MessageProcessor) (r : Message) (b b' : Buf)
        (d : Decoder Buf) (m : M)
      → (x : Extends io b b') → 5 + len ≤ length (bytes b)
      → let (rest, d₁, m₁) = consume io cb 5 len frontend p r b d m in
        let (rest', d₂, m₂) = consume io cb 5 len frontend p r b' d m in
        (bytes rest' ≡ bytes rest ++ x.more) × (d₂ ≡ d₁) × (m₂ ≡ m₁)
  unfolding consume
  consume_more same len frontend p r b b' d m x h =
      let moved = same (move_front len (drain 5 b')).0 (move_front len (drain 5 b)).0 (front') in
      (
        behind,
        ap (λ q. (process_message_body io cb q frontend p r d m).0) moved,
        ap (λ q. (process_message_body io cb q frontend p r d m).1) moved,
      )
    where
      inside : 5 + len ≤ length (bytes b')
      inside = omega (arith, Extends-length io x, h)

      body : bytes (drain 5 b) ≡ drop 5 (bytes b)
      body = drain-bytes 5 b (omega (arith, h))

      body' : bytes (drain 5 b') ≡ drop 5 (bytes b) ++ x.more
      body' =
          drain-bytes 5 b' (omega (arith, inside))
          ∙ ap (drop 5) x.holds
          ∙ drop_of_append 5 (bytes b) x.more (omega (arith, h))

      parts :
          (bytes (move_front len (drain 5 b)).0 ≡ take len (bytes (drain 5 b)))
          × (bytes (move_front len (drain 5 b)).1 ≡ drop len (bytes (drain 5 b)))
      parts =
          move_front-bytes len (drain 5 b)
            (omega (arith, ap length body, length-drop 5 (bytes b), h))

      parts' :
          (bytes (move_front len (drain 5 b')).0 ≡ take len (bytes (drain 5 b')))
          × (bytes (move_front len (drain 5 b')).1 ≡ drop len (bytes (drain 5 b')))
      parts' = move_front-bytes len (drain 5 b') (
          omega (
            arith,
            ap length body',
            length-append (drop 5 (bytes b)) x.more,
            length-drop 5 (bytes b),
            h,
          ))

      enough : len ≤ length (drop 5 (bytes b))
      enough = omega (arith, length-drop 5 (bytes b), h)

      front' : bytes (move_front len (drain 5 b')).0 ≡ bytes (move_front len (drain 5 b)).0
      front' =
          parts'.0
          ∙ ap (take len) body'
          ∙ take_of_append len (drop 5 (bytes b)) x.more enough
          ∙ sym (parts.0 ∙ ap (take len) body)

      behind :
          bytes (move_front len (drain 5 b')).1 ≡ bytes (move_front len (drain 5 b)).1 ++ x.more
      behind =
          parts'.1
          ∙ ap (drop len) body'
          ∙ drop_of_append len (drop 5 (bytes b)) x.more enough
          ∙ ap (λ l. l ++ x.more) (sym (parts.1 ∙ ap (drop len) body))

  -- What one call did on a buffer, `o`, and on one with `more` behind the same bytes, `o'`. It took
  -- a message in both, and what is left is the same but for `more`.
  pub record Took (more : List ℕ) (o o' : Outcome Buf M) : Type 0 where
    pub ready : o.result ≡ ready_for_next
    pub ready' : o'.result ≡ ready_for_next
    pub input : bytes o'.input ≡ bytes o.input ++ more
    pub decoder : o'.decoder ≡ o.decoder
    pub callee : o'.callee ≡ o.callee
    pub sync : o.decoder.state ≡ in_sync_state

  -- It gave up in both, and dropped all of the data.
  pub record GaveUp (o o' : Outcome Buf M) : Type 0 where
    pub ready : o.result ≡ ready_for_next
    pub ready' : o'.result ≡ ready_for_next
    pub input : bytes o.input ≡ []
    pub input' : bytes o'.input ≡ []
    pub decoder : o'.decoder ≡ o.decoder
    pub callee : o'.callee ≡ o.callee
    pub lost : o.decoder.state ≡ out_of_sync_state

  -- It asked for more data in the first, and changed only what the next call sets again.
  pub record Waited (b : Buf) (d : Decoder Buf) (m : M) (o : Outcome Buf M) : Type 0 where
    pub need : o.result ≡ need_more_data
    pub input : o.input ≡ b
    pub callee : o.callee ≡ m
    pub decoder :
        (c : ℕ) × (r : Option Message) × (o.decoder
          ≡ record d { command = c; replacement_message = r })
