-- ===== src/Message/Size.antt =====
-- `getSize` against the number of bytes that `write` appends: the length field of a message.
use postgres_tde.Base.{
  List, [], ap, arith, length, length-append, length-to_be, none, refl, some, sym, to_be, ℕ, ◌%◌,
  ◌+◌, ◌-◌, ◌<◌, ◌^◌, ◌∙◌, ◌∷◌, ◌≡◌, ◌≤◌,
}
use postgres_tde.Message.Format.{
  Fmt, int, string, byte_n, var_byte_n, array, repeated, done, seq, Val,
}
use postgres_tde.Message.Content.{encode, concat_map}
use postgres_tde.Message.Write.{get_size, sum_sizes}

sum_sizes-lt :
    {A : Type 0} (item : A → ℕ) (acc : ℕ) (xs : List A)
    → acc < 2 ^ 16
    → sum_sizes item acc xs < 2 ^ 16
unfolding sum_sizes
sum_sizes-lt item acc [] h = h
sum_sizes-lt item acc (x ∷ xs) h = sum_sizes-lt item ((acc + item x) % 2 ^ 16) xs (omega arith)

sum_sizes-eq :
    {A : Type 0} (item : A → ℕ) (enc : A → List ℕ) (acc : ℕ) (xs : List A)
    → ((x : A) → length (enc x) < 2 ^ 16 → item x ≡ length (enc x))
    → acc + length (concat_map enc xs) < 2 ^ 16
    → sum_sizes item acc xs ≡ acc + length (concat_map enc xs)
unfolding sum_sizes concat_map
sum_sizes-eq item enc acc [] h small = omega arith
sum_sizes-eq item enc acc (x ∷ xs) h small =
    let total = length-append (enc x) (concat_map enc xs) in
    let here : item x ≡ length (enc x) = h x (omega arith) in
    let next : (acc + item x) % 2 ^ 16 ≡ acc + length (enc x) = omega arith in
    ap (λ k. sum_sizes item k xs) next
    ∙ sum_sizes-eq item enc (acc + length (enc x)) xs h (omega arith)
    ∙ omega arith

-- `getSize` is the number of bytes that `write` appends, for every value of every format whose
-- encoding is shorter than 65536 bytes.
pub get_size-encode :
    (f : Fmt) (v : Val f) → length (encode f v) < 2 ^ 16 → get_size f v ≡ length (encode f v)
unfolding get_size encode
get_size-encode (int n) v h = sym (length-to_be n v)
get_size-encode string v h = omega (arith, length-append v.value (0 ∷ []))
get_size-encode byte_n v h = omega arith
get_size-encode var_byte_n none h = sym (length-to_be 4 (2 ^ 32 - 1))
get_size-encode var_byte_n (some d) h =
    omega (arith, length-append (to_be 4 (length d)) d, length-to_be 4 (length d))
get_size-encode (array f) vs h =
    let total = length-append (to_be 2 (length vs)) (concat_map (encode f) vs) in
    let count = length-to_be 2 (length vs) in
    omega (arith, sum_sizes-eq (get_size f) (encode f) 0 vs (get_size-encode f) (omega arith))
get_size-encode (repeated f) vs h =
    sum_sizes-eq (get_size f) (encode f) 0 vs (get_size-encode f) (omega arith) ∙ omega arith
get_size-encode done v h = refl
get_size-encode (seq f g) v h =
    let total = length-append (encode f v.0) (encode g v.1) in
    omega (arith, get_size-encode f v.0 (omega arith), get_size-encode g v.1 (omega arith))

-- The size of an array is summed up in 16 bits: whenever its encoding has 65538 bytes or more,
-- `getSize` is smaller than what `write` appends.
pub get_size-lt-length :
    (f : Fmt) (vs : List (Val f))
    → 2 + 2 ^ 16 ≤ length (encode (array f) vs)
    → get_size (array f) vs < length (encode (array f) vs)
unfolding get_size
get_size-lt-length f vs h = omega (arith, sum_sizes-lt (get_size f) 0 vs (omega arith))
