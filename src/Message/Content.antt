-- ===== src/Message/Content.antt =====
-- What a format's values look like on the wire, and which values fit it.
use postgres_tde.Base.{
  List, [], ap, append-nil, append_assoc, length, none, some, sym, to_be, ℕ, ◌++◌, ◌-◌, ◌<◌, ◌^◌,
  ◌∙◌, ◌∷◌, ◌≡◌, ◌≢◌,
}
use postgres_tde.Buffer.{Buffer}
use postgres_tde.Message.Format.{
  Fmt, int, string, byte_n, var_byte_n, array, repeated, done, seq, Val,
}
use postgres_tde.Message.Write.{write, write_items}

-- The encodings of a list's items, one after the other.
unfoldable pub concat_map : {A : Type 0} → (A → List ℕ) → List A → List ℕ
concat_map f [] = []
concat_map f (x ∷ xs) = f x ++ concat_map f xs

-- The bytes that the Postgres protocol gives a value.
unfoldable pub encode : (f : Fmt) → Val f → List ℕ
unfolding concat_map
encode (int n) v = to_be n v
encode string v = v.value ++ 0 ∷ []
encode byte_n v = v
encode var_byte_n (some d) = to_be 4 (length d) ++ d
encode var_byte_n none = to_be 4 (2 ^ 32 - 1)
encode (array f) vs = to_be 2 (length vs) ++ concat_map (encode f) vs
encode (repeated f) vs = concat_map (encode f) vs
encode done v = []
encode (seq f g) v = encode f v.0 ++ encode g v.1

abbrev pub All {ℓ κ} : {A : Type ℓ} → (A → Type κ) → List A → Type κ
All P [] = Unit
All P (x ∷ xs) = P x × All P xs

pub All-map {ℓ κ κ'} :
    {A : Type ℓ} {P : A → Type κ} {Q : A → Type κ'} (xs : List A)
    → ((x : A) → P x → Q x)
    → All P xs
    → All Q xs
All-map [] f h = tt
All-map (x ∷ xs) f h = (f x h.0, All-map xs f h.1)

-- The values that a receiver can tell apart from what follows them: integers in range, texts with
-- no zero byte, byte strings that are null or not empty, arrays with a 16-bit count. `ByteN` and
-- `Repeated` have no end of their own and are left out.
abbrev pub Fits : (f : Fmt) → Val f → Type 0
Fits (int n) v = v < 256 ^ n
Fits string v = All (λ x. x ≢ 0) v.value
Fits byte_n v = ⊥
Fits var_byte_n none = Unit {0}
Fits var_byte_n (some d) = (0 < length d) × (length d < 2 ^ 31)
Fits (array f) vs = (length vs < 2 ^ 16) × All (Fits f) vs
Fits (repeated f) vs = ⊥
Fits done v = Unit {0}
Fits (seq f g) v = Fits f v.0 × Fits g v.1

-- Two lists of the same length, related item by item.
abbrev pub Each : {A : Type 0} → (A → A → Type 0) → List A → List A → Type 0
Each R [] [] = Unit
Each R (x ∷ xs) (y ∷ ys) = R x y × Each R xs ys
Each R _ _ = ⊥

-- Equal, but for the positions that `validate` keeps in a `String`.
abbrev pub Same : (f : Fmt) → Val f → Val f → Type 0
Same (int n) v w = v ≡ w
Same string v w = v.value ≡ w.value
Same byte_n v w = v ≡ w
Same var_byte_n v w = v ≡ w
Same (array f) vs ws = Each (Same f) vs ws
Same (repeated f) vs ws = Each (Same f) vs ws
Same done v w = Unit {0}
Same (seq f g) v w = Same f v.0 w.0 × Same g v.1 w.1

module _ (io : Buffer) where
  open io use {Buf, bytes, add-bytes, write_be-bytes}

  write_items-bytes :
      {A : Type 0} (item : A → Buf → Buf) (enc : A → List ℕ)
      → ((x : A) (to : Buf) → bytes (item x to) ≡ bytes to ++ enc x)
      → (xs : List A) (to : Buf) → bytes (write_items io item xs to) ≡ bytes to ++ concat_map enc xs
  unfolding write_items concat_map
  write_items-bytes item enc h [] to = sym (append-nil (bytes to))
  write_items-bytes item enc h (x ∷ xs) to =
      write_items-bytes item enc h xs (item x to)
      ∙ ap (λ l. l ++ concat_map enc xs) (h x to)
      ∙ append_assoc (bytes to) (enc x) (concat_map enc xs)

  -- `write` appends the protocol's encoding of the value, for every field type and value.
  pub write-bytes :
      (f : Fmt) (v : Val f) (to : Buf) → bytes (write io f v to) ≡ bytes to ++ encode f v
  unfolding write encode
  write-bytes (int n) v to = write_be-bytes n v to
  write-bytes string v to = add-bytes (v.value ++ 0 ∷ []) to
  write-bytes byte_n v to = add-bytes v to
  write-bytes var_byte_n (some d) to = simp (add-bytes, write_be-bytes, append_assoc)
  write-bytes var_byte_n none to = write_be-bytes 4 (2 ^ 32 - 1) to
  write-bytes (array f) vs to =
      write_items-bytes (write io f) (encode f) (write-bytes f) vs (io.write_be 2 (length vs) to)
      ∙ simp (write_be-bytes, append_assoc)
  write-bytes (repeated f) vs to = write_items-bytes (write io f) (encode f) (write-bytes f) vs to
  write-bytes done v to = sym (append-nil (bytes to))
  write-bytes (seq f g) v to =
      write-bytes g v.1 (write io f v.0 to) ∙ simp (write-bytes f v.0 to, append_assoc)
