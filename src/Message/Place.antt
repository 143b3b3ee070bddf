-- ===== src/Message/Place.antt =====
-- A byte string at a place of the buffer, and what the checks of `validate` say there.
use postgres_tde.Base.{
  List, [], add64, ap, append_assoc, arith, drop, drop-add, drop-append, false, length,
  length-append, length-drop, le→ltb-false, ltb, slice, sub64, take-append, ℕ, ◌++◌, ◌+◌, ◌-◌, ◌<◌,
  ◌^◌, ◌∙◌, ◌≡◌, ◌≤◌,
}
use postgres_tde.Message.Format.{
  Fmt, int, string, byte_n, var_byte_n, array, repeated, done, seq, Val, Cursor,
}
use postgres_tde.Message.Content.{Each}
use postgres_tde.Message.Validate.{advance}

-- The object that `validate` leaves for a value: `end - start` is a text's length, and an array has
-- as many items.
abbrev pub Shape : (f : Fmt) → Val f → Val f → Type 0
Shape (int n) v o = Unit {0}
Shape string v o = sub64 o.end o.start ≡ length v.value
Shape byte_n v o = Unit {0}
Shape var_byte_n v o = Unit {0}
Shape (array f) vs os = Each (Shape f) vs os
Shape (repeated f) vs os = Each (Shape f) vs os
Shape done v o = Unit {0}
Shape (seq f g) v o = Shape f v.0 o.0 × Shape g v.1 o.1

-- A byte string lies at a cursor: inside the buffer and inside the message.
pub record At (bs : List ℕ) (c : Cursor) (xs : List ℕ) : Type 0 where
  pub post : List ℕ
  pub inside : c.pos ≤ length bs
  pub small : length bs < 2 ^ 64
  pub here : drop c.pos bs ≡ xs ++ post
  pub room : length xs ≤ c.left
  pub left_small : c.left < 2 ^ 63

abbrev pub past : Cursor → List ℕ → Cursor
past c xs = record { pos = c.pos + length xs; left = c.left - length xs }

module _ {bs : List ℕ} {c : Cursor} {xs : List ℕ} (at : At bs c xs) where
  pub At-length : c.pos + length xs ≤ length bs
  At-length =
      omega (arith, length-drop c.pos bs, ap length at.here, length-append xs at.post, at.inside)

  pub At-slice : slice c.pos (length xs) bs ≡ xs
  At-slice = rw at.here (take-append xs at.post)

  pub At-advance : (n : ℕ) → n ≡ length xs → advance n c ≡ past c xs
  At-advance n e =
      let p : add64 c.pos n ≡ c.pos + length xs = omega (arith, At-length, at.small) in
      let q : sub64 c.left n ≡ c.left - length xs = omega (arith, at.room, at.left_small) in
      cc (p, q)

  -- The two guards that come before a read of `n` bytes pass.
  pub At-left : (n : ℕ) → n ≤ length xs → ltb c.left n ≡ false
  At-left n h = le→ltb-false _ _ (omega (arith, at.room))

  pub At-available : (n : ℕ) → n ≤ length xs → ltb (sub64 (length bs) c.pos) n ≡ false
  At-available n h = le→ltb-false _ _ (omega (arith, At-length, at.small))

pub past-nil : (c : Cursor) → past c [] ≡ c
past-nil c =
    let p : c.pos + 0 ≡ c.pos = omega arith in
    let q : c.left - 0 ≡ c.left = omega arith in cc (p, q)

pub past-append : (c : Cursor) (xs ys : List ℕ) → past (past c xs) ys ≡ past c (xs ++ ys)
past-append c xs ys =
    let e = length-append xs ys in
    let p : c.pos + length xs + length ys ≡ c.pos + length (xs ++ ys) = omega arith in
    let q : c.left - length xs - length ys ≡ c.left - length (xs ++ ys) = omega arith in cc (p, q)

-- The parts of a concatenation lie one behind the other.
module _ {bs : List ℕ} {c : Cursor} (xs ys : List ℕ) (at : At bs c (xs ++ ys)) where
  pub At-first : At bs c xs
  At-first = record {
    post = ys ++ at.post;
    inside = at.inside;
    small = at.small;
    here = at.here ∙ append_assoc xs ys at.post;
    room = omega (arith, at.room, length-append xs ys);
    left_small = at.left_small;
  }

  pub At-rest : At bs (past c xs) ys
  At-rest = record {
    post = at.post;
    inside = At-length At-first;
    small = at.small;
    here =
        drop-add c.pos (length xs) bs
        ∙ ap (drop (length xs)) (at.here ∙ append_assoc xs ys at.post)
        ∙ drop-append xs (ys ++ at.post);
    room = omega (arith, at.room, length-append xs ys);
    left_small = omega (arith, at.left_small);
  }
