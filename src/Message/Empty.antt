-- ===== src/Message/Empty.antt =====
-- Two ways in which a `VarByteN` is not kept: the empty value, and a length that leaves no room for
-- the length field itself.
use postgres_tde.Base.{
  [], add64, ap, append-nil, arith, false, from_be-to_be, length, length-to_be, le→ltb-false, ltb,
  none, slice, some, sub64, sym, to_be, ℕ, ◌++◌, ◌+◌, ◌-◌, ◌<◌, ◌^◌, ◌∙◌, ◌≡◌, ◌≤◌,
}
use postgres_tde.Buffer.{Buffer}
use postgres_tde.Message.Format.{var_byte_n, Cursor}
use postgres_tde.Message.Content.{encode, write-bytes}
use postgres_tde.Message.Accepts.{peek_be-At}
use postgres_tde.Message.Place.{At, At-first, At-left, At-available, At-advance, past}
use postgres_tde.Message.Validate.{
  accept, validate, validate_var_byte_n, validate_length, not_positive, signed_lt, sign_extend,
  advance,
}
use postgres_tde.Message.Read.{read, read_var_byte_n, finished}
use postgres_tde.Message.Write.{write}

module _ (io : Buffer) where
  open io use {Buf, bytes, size-bytes, peek_be-bytes}

  -- An empty value (length 0) is accepted, is read as a null, and is written back as a null
  -- (length -1), in every buffer and at every place.
  pub empty_becomes_null :
      (b to : Buf) (c : Cursor)
      → At (bytes b) c (encode var_byte_n (some []))
      → (validate io var_byte_n b 0 c ≡ accept none (past c (encode var_byte_n (some []))))
        × (read io var_byte_n none b c ≡ finished none (past c (encode var_byte_n (some []))))
        × (bytes (write io var_byte_n none to) ≡ bytes to ++ to_be 4 (2 ^ 32 - 1))
  unfolding validate validate_var_byte_n validate_length read read_var_byte_n encode
  empty_becomes_null b to c at = (
    rw
        (
          size-bytes b,
          At-left at 4 (omega (arith, count)),
          At-available at 4 (omega (arith, count)),
          peek_be-At io 4 0 b c (At-first (to_be 4 0) [] at) (omega arith),
        )
        (rw within (ap (accept none) (At-advance at 4 (sym count)))),
    rw (peek_be-At io 4 0 b c (At-first (to_be 4 0) [] at) (omega arith))
        (ap (finished none) (At-advance at 4 (sym count))),
    write-bytes io var_byte_n none to,
  )
    where
      count : length (to_be 4 0 ++ []) ≡ 4
      count = ap length (append-nil (to_be 4 0)) ∙ length-to_be 4 0

      within : signed_lt c.left 0 ≡ false
      within = ground (arith, at.left_small)

  -- The length of a value is compared with all that is left of the message, its own four bytes
  -- included: whenever it is at most that and more than what is left behind the four bytes, the
  -- value is accepted although it ends behind the message, and `left` wraps round.
  pub overrun_accepted :
      (len : ℕ) (b : Buf) (c : Cursor)
      → c.pos + (len + 4) ≤ length (bytes b)
      → length (bytes b) < 2 ^ 63
      → slice c.pos 4 (bytes b) ≡ to_be 4 len
      → len < 2 ^ 31
      → 4 ≤ c.left
      → 0 < len
      → len ≤ c.left
      → c.left < len + 4
      → validate io var_byte_n b 0 c
        ≡ accept none (record { pos = c.pos + (len + 4); left = 2 ^ 64 + c.left - (len + 4) })
  unfolding validate validate_var_byte_n validate_length
  overrun_accepted len b c inside small field short room pos le over =
      rw
        (
          size-bytes b,
          le→ltb-false c.left 4 room,
          le→ltb-false (sub64 (length (bytes b)) c.pos) 4 (omega arith),
          peek_be-bytes 4 b c.pos (omega arith),
          field,
          from_be-to_be 4 len (omega arith),
        )
        (rw (within, positive, available) (ap (accept none) cursor_eq))
    where
      within : signed_lt c.left (sign_extend len) ≡ false
      within = ground arith

      positive : not_positive len ≡ false
      positive = ground arith

      available : ltb (sub64 (length (bytes b)) c.pos) (len + 4) ≡ false
      available = le→ltb-false _ _ (omega arith)

      cursor_eq :
          advance (len + 4) c
          ≡ record { pos = c.pos + (len + 4); left = 2 ^ 64 + c.left - (len + 4) }
      cursor_eq =
          let p : add64 c.pos (len + 4) ≡ c.pos + (len + 4) = omega arith in
          let q : sub64 c.left (len + 4) ≡ 2 ^ 64 + c.left - (len + 4) = omega arith in cc (p, q)
