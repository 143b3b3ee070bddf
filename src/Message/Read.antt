-- ===== src/Message/Read.antt =====
-- The `read` methods of postgres_message.h and postgres_message.cc, called after `validate`.
use postgres_tde.Base.{
  List, Option, [], add64, false, if◌then◌else◌, ltb, none, some, sub64, suc, true, zero, ℕ, ◌+◌,
  ◌∷◌,
}
use postgres_tde.Buffer.{Buffer}
use postgres_tde.Message.Format.{
  Fmt, int, string, byte_n, var_byte_n, array, repeated, done, seq, Str, Val, Cursor, Reading,
}
use postgres_tde.Message.Validate.{advance, not_positive}

abbrev pub finished : {A : Type 0} → A → Cursor → Reading A
finished a c = record { success = true; object = a; cursor = c }

abbrev pub push_read : {A : Type 0} → A → List A × Cursor → List A × Cursor
push_read o rest = (o ∷ rest.0, rest.1)

-- The loop of `Array::read`, which does not look at what the items return. More turns than items
-- do not arise after `validate`; the loop stops there.
unfoldable pub read_items :
    {A : Type 0} → (A → Cursor → Reading A) → ℕ → List A → Cursor → List A × Cursor
read_items item zero xs c = (xs, c)
read_items item (suc n) [] c = ([], c)
read_items item (suc n) (x ∷ xs) c =
    let r = item x c in push_read r.object (read_items item n xs r.cursor)

-- The loop of `Repeated::read`, which stops at the first item that cannot be read.
unfoldable pub read_while :
    {A : Type 0} → (A → Cursor → Reading A) → List A → Cursor → Reading (List A)
read_while item [] c = finished [] c
read_while item (x ∷ xs) c =
    let r = item x c in
    let rest = read_while item xs r.cursor in
    if r.success
    then record rest { object = r.object ∷ rest.object }
    else record { success = false; object = r.object ∷ xs; cursor = r.cursor }

-- The fields of a `Sequence`; the first that cannot be read stops it.
abbrev pub pair_read : {A B : Type 0} → A → Reading B → Reading (A × B)
pair_read o rest = record {
  success = rest.success;
  object = (o, rest.object);
  cursor = rest.cursor;
}

abbrev pub read_remaining : {A B : Type 0} → B → Reading A → (Cursor → Reading B) → Reading (A × B)
read_remaining unread first remaining =
    if first.success
    then pair_read first.object (remaining first.cursor)
    else record { success = false; object = (first.object, unread); cursor = first.cursor }

module _ (io : Buffer) where
  open io use {Buf, size, peek_be, copy_out}

  unfoldable pub read_string : Str → Buf → Cursor → Reading Str
  read_string s b c =
      let size = sub64 s.end s.start in
      finished (record s { value = copy_out b c.pos size }) (advance (size + 1) c)

  unfoldable pub read_byte_n : List ℕ → Buf → Cursor → Reading (List ℕ)
  read_byte_n v b c =
      if ltb (sub64 (size b) c.pos) c.left
      then record { success = false; object = v; cursor = c }
      else finished (copy_out b c.pos c.left) (record { pos = add64 c.pos c.left; left = 0 })

  unfoldable pub read_var_byte_n : Buf → Cursor → Reading (Option (List ℕ))
  read_var_byte_n b c =
      let len = peek_be 4 b c.pos in
      let after = advance 4 c in
      if not_positive len
      then finished none after
      else finished (some (copy_out b after.pos len)) (advance len after)

  unfoldable pub read : (f : Fmt) → Val f → Buf → Cursor → Reading (Val f)
  unfolding read_string read_byte_n read_var_byte_n read_items read_while
  read (int n) v b c = finished (peek_be n b c.pos) (advance n c)
  read string v b c = read_string v b c
  read byte_n v b c = read_byte_n v b c
  read var_byte_n v b c = read_var_byte_n b c
  read (array f) v b c =
      let items = read_items (λ x. read f x b) (peek_be 2 b c.pos) v (advance 2 c) in
      finished items.0 items.1
  read (repeated f) v b c = read_while (λ x. read f x b) v c
  read done v b c = finished tt c
  read (seq f g) v b c = read_remaining v.1 (read f v.0 b c) (read g v.1 b)
