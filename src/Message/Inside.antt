-- ===== src/Message/Inside.antt =====
-- `validate` stays inside the buffer.
use postgres_tde.Base.{
  Bool-cases, List, Option-cases, [], arith, drop, inl, inr, length, length-drop, some, suc, zero,
  ℕ, ◌-◌, ◌<◌, ◌==◌, ◌^◌, ◌∷◌, ◌≡◌, ◌≤◌,
}
use postgres_tde.Buffer.{Buffer, find_index}
use postgres_tde.Message.Format.{
  Fmt, int, string, byte_n, var_byte_n, array, repeated, done, seq, Cursor, Validated, fresh,
}
use postgres_tde.Message.Validate.{
  validate, validate_int, validate_string, validate_found, validate_byte_n, validate_var_byte_n,
  validate_length, validate_array, validate_items, validate_items-zero, validate_items-suc,
  validate_repeated, validate_while, then_items, then_field, advance,
}

pub find_index-lt : (c : ℕ) (xs : List ℕ) (j : ℕ) → find_index c xs ≡ some j → j < length xs
find_index-lt c [] j h = absurd (cc h)
find_index-lt c (x ∷ xs) j h = elim (Bool-cases (x == c)) [
  | inl e ↦ ground arith
  | inr e ↦ elim (Option-cases (find_index c xs)) [
    | inl n ↦ ground arith
    | inr (k, m) ↦ ground (arith, find_index-lt c xs k m)
  ]
]

-- The cursor is inside a buffer of `n` bytes.
abbrev pub Inside : ℕ → Cursor → Type 0
Inside n c = c.pos ≤ n

abbrev KeepsInside : {A : Type 0} → ℕ → (Cursor → Validated A) → Type 0
KeepsInside n item = (c : Cursor) → Inside n c → Inside n (item c).cursor

then_items-Inside :
    {A : Type 0} (n : ℕ) (r : Validated A) (items : Cursor → Validated (List A))
    → Inside n r.cursor
    → KeepsInside n items
    → Inside n (then_items r items).cursor
then_items-Inside n r items i h = ground (arith, h r.cursor i)

validate_items-Inside :
    {A : Type 0} (n : ℕ) (item : Cursor → Validated A) (k : ℕ)
    → KeepsInside n item
    → KeepsInside n (validate_items item k)
validate_items-Inside n item zero h c i = rw validate_items-zero i
validate_items-Inside n item (suc k) h c i = rw validate_items-suc (
    then_items-Inside n (item c) (validate_items item k) (h c i) (validate_items-Inside n item k h))

validate_while-Inside :
    {A : Type 0} (n fuel : ℕ) (item : Cursor → Validated A)
    → KeepsInside n item
    → (c : Cursor) → Inside n c
    → Inside n (validate_while fuel item c).1
unfolding validate_while
validate_while-Inside n zero item h c i = i
validate_while-Inside n (suc fuel) item h c i =
    ground (arith, h c i, validate_while-Inside n fuel item h (item c).cursor (h c i))

then_field-Inside :
    {A B : Type 0} (n : ℕ) (c : Cursor) (untouched : B) (r : Validated A)
    (remaining : Cursor → Validated B)
    → Inside n c
    → Inside n r.cursor
    → KeepsInside n remaining
    → Inside n (then_field c untouched r remaining).cursor
then_field-Inside n c untouched r remaining i j h = ground (arith, h r.cursor j)

module _ (io : Buffer) where
  open io use {Buf, bytes, size, search, size-bytes, search-bytes, peek_be}

  validate_int-Inside :
      (n : ℕ) (b : Buf)
      → length (bytes b) < 2 ^ 63
      → KeepsInside (length (bytes b)) (validate_int io n b)
  unfolding validate_int
  validate_int-Inside n b small c i = ground (arith, size-bytes b)

  validate_string-Inside :
      (b : Buf) (start : ℕ)
      → length (bytes b) < 2 ^ 63
      → KeepsInside (length (bytes b)) (validate_string io b start)
  unfolding validate_string validate_found
  validate_string-Inside b start small c i =
      elim (Option-cases (find_index 0 (drop c.pos (bytes b)))) [
        | inl e ↦ ground (arith, size-bytes b, search-bytes 0 b c.pos i)
        | inr (j, e) ↦ ground (
          arith,
          search-bytes 0 b c.pos i,
          find_index-lt 0 (drop c.pos (bytes b)) j e,
          length-drop c.pos (bytes b),
        )
      ]

  validate_byte_n-Inside :
      (b : Buf) → length (bytes b) < 2 ^ 63 → KeepsInside (length (bytes b)) (validate_byte_n io b)
  unfolding validate_byte_n
  validate_byte_n-Inside b small c i = ground (arith, size-bytes b)

  validate_length-Inside :
      (len : ℕ) (b : Buf)
      → length (bytes b) < 2 ^ 63
      → (c : Cursor) → 4 ≤ length (bytes b) - c.pos
      → Inside (length (bytes b)) c
      → Inside (length (bytes b)) (validate_length io len b c).cursor
  unfolding validate_length
  validate_length-Inside len b small c room i = ground (arith, size-bytes b)

  validate_var_byte_n-Inside :
      (b : Buf)
      → length (bytes b) < 2 ^ 63
      → KeepsInside (length (bytes b)) (validate_var_byte_n io b)
  unfolding validate_var_byte_n
  validate_var_byte_n-Inside b small c i =
      ground (arith, size-bytes b, validate_length-Inside (peek_be 4 b c.pos) b small c)

  validate_array-Inside :
      {A : Type 0} (item : Cursor → Validated A) (b : Buf)
      → length (bytes b) < 2 ^ 63
      → KeepsInside (length (bytes b)) item
      → KeepsInside (length (bytes b)) (validate_array io item b)
  unfolding validate_array
  validate_array-Inside item b small h c i = ground (
    arith,
    size-bytes b,
    validate_items-Inside (length (bytes b)) item (peek_be 2 b c.pos) h (advance 2 c),
  )

  validate_repeated-Inside :
      {A : Type 0} (item : Cursor → Validated A) (b : Buf)
      → KeepsInside (length (bytes b)) item
      → KeepsInside (length (bytes b)) (validate_repeated io item b)
  unfolding validate_repeated
  validate_repeated-Inside item b h c i =
      ground (arith, validate_while-Inside (length (bytes b)) c.left item h c i)

  -- From a position inside the buffer `validate` ends at one inside the buffer, for every format,
  -- whatever the bytes are and whether it accepts them or not.
  pub validate-Inside :
      (f : Fmt) (b : Buf) (start : ℕ) (c : Cursor)
      → length (bytes b) < 2 ^ 63
      → Inside (length (bytes b)) c
      → Inside (length (bytes b)) (validate io f b start c).cursor
  unfolding validate
  validate-Inside (int n) b start c small i = validate_int-Inside n b small c i
  validate-Inside string b start c small i = validate_string-Inside b start small c i
  validate-Inside byte_n b start c small i = validate_byte_n-Inside b small c i
  validate-Inside var_byte_n b start c small i = validate_var_byte_n-Inside b small c i
  validate-Inside (array f) b start c small i =
      validate_array-Inside (validate io f b start) b small
        (λ d j. validate-Inside f b start d small j) c i
  validate-Inside (repeated f) b start c small i =
      validate_repeated-Inside (validate io f b start) b
        (λ d j. validate-Inside f b start d small j) c i
  validate-Inside done b start c small i = i
  validate-Inside (seq f g) b start c small i =
      then_field-Inside (length (bytes b)) c (fresh g) (validate io f b start c)
        (validate io g b start) i (validate-Inside f b start c small i)
        (λ d j. validate-Inside g b start d small j)
