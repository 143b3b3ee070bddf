-- ===== src/Message/Write.antt =====
-- The `getSize` and `write` methods of postgres_message.h.
use postgres_tde.Base.{List, [], length, none, some, ℕ, ◌%◌, ◌++◌, ◌+◌, ◌-◌, ◌^◌, ◌∷◌}
use postgres_tde.Buffer.{Buffer}
use postgres_tde.Message.Format.{
  Fmt, int, string, byte_n, var_byte_n, array, repeated, done, seq, Val,
}

-- `uint16_t size = 0; for (...) size += elem->getSize();`
unfoldable pub sum_sizes : {A : Type 0} → (A → ℕ) → ℕ → List A → ℕ
sum_sizes item acc [] = acc
sum_sizes item acc (x ∷ xs) = sum_sizes item ((acc + item x) % 2 ^ 16) xs

-- `getSize` returns an `int32_t`, here its bit pattern.
unfoldable pub get_size : (f : Fmt) → Val f → ℕ
unfolding sum_sizes
get_size (int n) v = n
get_size string v = (length v.value + 1) % 2 ^ 32
get_size byte_n v = length v % 2 ^ 32
get_size var_byte_n none = 4
get_size var_byte_n (some d) = (length d + 4) % 2 ^ 32
get_size (array f) vs = 2 + sum_sizes (get_size f) 0 vs
get_size (repeated f) vs = sum_sizes (get_size f) 0 vs
get_size done v = 0
get_size (seq f g) v = (get_size f v.0 + get_size g v.1) % 2 ^ 32

module _ (io : Buffer) where
  open io use {Buf, add, write_be}

  unfoldable pub write_items : {A : Type 0} → (A → Buf → Buf) → List A → Buf → Buf
  write_items item [] to = to
  write_items item (x ∷ xs) to = write_items item xs (item x to)

  unfoldable pub write : (f : Fmt) → Val f → Buf → Buf
  unfolding write_items
  write (int n) v to = write_be n v to
  write string v to = add (v.value ++ 0 ∷ []) to
  write byte_n v to = add v to
  write var_byte_n (some d) to = add d (write_be 4 (length d) to)
  write var_byte_n none to = write_be 4 (2 ^ 32 - 1) to
  write (array f) vs to = write_items (write f) vs (write_be 2 (length vs) to)
  write (repeated f) vs to = write_items (write f) vs to
  write done v to = to
  write (seq f g) v to = write g v.1 (write f v.0 to)

  -- `MessageImpl::write`: the identifier, the length of the message without it, and the fields.
  unfoldable pub write_message : (f : Fmt) → Val f → ℕ → Buf → Buf
  write_message f v identifier to =
      write f v (write_be 4 (get_size f v + 4) (write_be 1 identifier to))
