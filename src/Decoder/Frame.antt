-- ===== src/Decoder/Frame.antt =====
-- postgres_decoder.cc: a message as it stands on the wire, at the start of a buffer and as the
-- decoder writes it back.
use postgres_tde.Base.{
  List, ap, append_assoc, arith, drop, drop-add, drop-append, false, from_be, from_be-to_be,
  if◌then◌else◌, length, length-append, length-to_be, slice, sym, take, take-append, to_be,
  to_be_one, ℕ, ◌++◌, ◌+◌, ◌<◌, ◌==◌, ◌^◌, ◌∙◌, ◌∷◌, ◌≡◌, ◌≢◌,
}
use postgres_tde.Buffer.{Buffer}
use postgres_tde.Decoder.State.{Callbacks}
use postgres_tde.Decoder.Body.{write_old, no_command, first_byte}

-- A message as it stands on the wire: its first byte, the length of the rest, and its body.
abbrev pub frame : ℕ → List ℕ → List ℕ
frame command content = command ∷ (to_be 4 (length content + 4) ++ content)

module _ (io : Buffer) {M : Type 0} (cb : Callbacks (Buffer.Buf io) M) where
  open io use {
    Buf, bytes, size, size-bytes, append, append-bytes, write_be, write_be-bytes, drain,
    drain-bytes, move_front, move_front-bytes, copy_out, copy_out-bytes, peek_be, peek_be-bytes,
  }

  pub write_old-bytes :
      (command : ℕ) (content to : Buf)
      → command ≢ no_command
      → command < 256
      → bytes (write_old io cb command content to) ≡ bytes to ++ frame command (bytes content)
  unfolding write_old
  write_old-bytes command content to h small =
      let named : (command == no_command) ≡ false = ground arith in
      ap
        (λ t. bytes (
          append (write_be 4 (size content + 4) (if t then to else write_be 1 command to)) content))
        named
      ∙ append-bytes (write_be 4 (size content + 4) (write_be 1 command to)) content
      ∙ simp (write_be-bytes, to_be_one command small, append_assoc, size-bytes content)

  -- A buffer that starts with a framed message.
  pub record Framed (command : ℕ) (content rest : List ℕ) (b : Buf) : Type 0 where
    pub holds : bytes b ≡ frame command content ++ rest
    pub short : length content + 4 < 2 ^ 32

  module _ {command : ℕ} {content rest : List ℕ} {b : Buf} (h : Framed command content rest b) where
    Framed-tail : drop 1 (bytes b) ≡ to_be 4 (length content + 4) ++ (content ++ rest)
    Framed-tail = ap (drop 1) h.holds ∙ append_assoc (to_be 4 (length content + 4)) content rest

    pub Framed-length : length (bytes b) ≡ 5 + (length content + length rest)
    Framed-length =
        ap length h.holds
        ∙ omega (
          arith,
          length-append (to_be 4 (length content + 4) ++ content) rest,
          length-append (to_be 4 (length content + 4)) content,
          length-to_be 4 (length content + 4),
        )

    pub Framed-command : first_byte (copy_out b 0 1) ≡ command
    Framed-command =
        ap first_byte (copy_out-bytes b 0 1 (omega (arith, Framed-length)))
        ∙ ap (λ l. first_byte (slice 0 1 l)) h.holds

    pub Framed-len : peek_be 4 b 1 ≡ length content + 4
    Framed-len =
        let field = to_be 4 (length content + 4) in
        peek_be-bytes 4 b 1 (omega (arith, Framed-length))
        ∙ ap (λ l. from_be (take 4 l)) Framed-tail
        ∙ ap (λ k. from_be (take k (field ++ (content ++ rest))))
            (sym (length-to_be 4 (length content + 4)))
        ∙ ap from_be (take-append field (content ++ rest))
        ∙ from_be-to_be 4 (length content + 4) h.short

    Framed-body : bytes (drain 5 b) ≡ content ++ rest
    Framed-body =
        let field = to_be 4 (length content + 4) in
        drain-bytes 5 b (omega (arith, Framed-length))
        ∙ drop-add 1 4 (bytes b)
        ∙ ap (drop 4) Framed-tail
        ∙ ap (λ k. drop k (field ++ (content ++ rest))) (sym (length-to_be 4 (length content + 4)))
        ∙ drop-append field (content ++ rest)

    pub Framed-moved :
        (bytes (move_front (length content) (drain 5 b)).0 ≡ content)
        × (bytes (move_front (length content) (drain 5 b)).1 ≡ rest)
    Framed-moved =
        let laws =
          move_front-bytes (length content) (drain 5 b)
            (omega (arith, ap length Framed-body, length-append content rest)) in
        (
          laws.0 ∙ ap (take (length content)) Framed-body ∙ take-append content rest,
          laws.1 ∙ ap (drop (length content)) Framed-body ∙ drop-append content rest,
        )
