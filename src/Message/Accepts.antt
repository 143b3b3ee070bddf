-- ===== src/Message/Accepts.antt =====
-- `validate` accepts what `write` produced.
use postgres_tde.Base.{
  List, [], add64, ap, append_assoc, arith, false, from_be, from_be-to_be, leb, length,
  length-append, length-to_be, none, refl, slice, some, sub64, sym, to_be, ℕ, ◌++◌, ◌+◌, ◌-◌, ◌<◌,
  ◌^◌, ◌∙◌, ◌∷◌, ◌≡◌, ◌≢◌,
}
use mathlib.Core.Option
use postgres_tde.Buffer.{Buffer, find_index}
use postgres_tde.Message.Format.{
  Fmt, int, string, byte_n, var_byte_n, array, repeated, done, seq, Val, Str, fresh, Cursor,
  Validated,
}
use postgres_tde.Message.Content.{All, All-map, Fits, Each, encode, concat_map}
use postgres_tde.Message.Validate.{
  then_items, push_item, pair_field, validate_items-zero, validate_items-suc, then_field, accept,
  validate, validate_int, validate_string, validate_found, validate_var_byte_n, validate_length,
  validate_array, validate_items, restore, sign_extend, signed_lt, not_positive,
}
use postgres_tde.Message.Place.{
  Shape, At, past, At-length, At-slice, At-advance, At-left, At-available, past-nil, past-append,
  At-first, At-rest,
}

module _ (io : Buffer) where
  open io use {Buf, bytes, search, size-bytes, search-bytes, peek_be, peek_be-bytes}

  validate_int-accepts :
      (n v : ℕ) (b : Buf) (c : Cursor)
      → At (bytes b) c (to_be n v)
      → validate_int io n b c ≡ accept 0 (past c (to_be n v))
  unfolding validate_int
  validate_int-accepts n v b c at =
      let e : n ≡ length (to_be n v) = sym (length-to_be n v) in
      rw (
        size-bytes b,
        At-left at n (omega arith),
        At-available at n (omega arith),
        At-advance at n e,
      )

  -- The first zero byte is the terminator.
  find_index-zero :
      (text post : List ℕ)
      → All (λ x. x ≢ 0) text
      → find_index 0 (text ++ 0 ∷ post) ≡ some (length text)
  find_index-zero [] post h = refl
  find_index-zero (x ∷ text) post h = ground (arith, find_index-zero text post h.1)

  validate_string-accepts :
      (v : Str) (b : Buf) (start : ℕ) (c : Cursor)
      → All (λ x. x ≢ 0) v.value
      → At (bytes b) c (v.value ++ 0 ∷ [])
      → (o : Str) × (validate_string io b start c ≡ accept o (past c (v.value ++ 0 ∷ [])))
        × Shape string v o
  unfolding validate_string
  validate_string-accepts v b start c clean at = (
    record { start = sub64 c.pos start; end = add64 (sub64 c.pos start) n; value = [] },
    rw (found, validate_string)
        (rw (validate_found, size_eq, fits, At-advance at (n + 1) (omega (arith, total))) refl),
    omega (arith, total, At-length at, at.small),
  )
    where
      n : ℕ
      n = length v.value

      total : length (v.value ++ 0 ∷ []) ≡ n + 1
      total = omega (arith, length-append v.value (0 ∷ []))

      found : search 0 b c.pos ≡ some (c.pos + n)
      found =
          search-bytes 0 b c.pos at.inside
          ∙ ap (λ l. Option.map (λ j. c.pos + j) (find_index 0 l))
              (at.here ∙ append_assoc v.value (0 ∷ []) at.post)
          ∙ ap (Option.map (λ j. c.pos + j)) (find_index-zero v.value at.post clean)

      size_eq : sub64 (c.pos + n) c.pos ≡ n
      size_eq = omega (arith, total, At-length at, at.small)

      fits : leb c.left n ≡ false
      fits = ground (arith, total, at.room)

  -- A number that was written is read back.
  pub peek_be-At :
      (n v : ℕ) (b : Buf) (c : Cursor)
      → At (bytes b) c (to_be n v)
      → v < 256 ^ n
      → peek_be n b c.pos ≡ v
  peek_be-At n v b c at h =
      let e : length (to_be n v) ≡ n = length-to_be n v in
      peek_be-bytes n b c.pos (omega (arith, At-length at))
      ∙ ap from_be (ap (λ k. slice c.pos k (bytes b)) (sym e) ∙ At-slice at)
      ∙ from_be-to_be n v h

  validate_null-accepts :
      (b : Buf) (c : Cursor)
      → At (bytes b) c (to_be 4 (2 ^ 32 - 1))
      → validate_var_byte_n io b c ≡ accept none (past c (to_be 4 (2 ^ 32 - 1)))
  unfolding validate_var_byte_n
  validate_null-accepts b c at =
      rw
        (
          size-bytes b,
          At-left at 4 (omega (arith, length-to_be 4 (2 ^ 32 - 1))),
          At-available at 4 (omega (arith, length-to_be 4 (2 ^ 32 - 1))),
          peek_be-At 4 (2 ^ 32 - 1) b c at (omega arith),
          ← At-advance at 4 (omega (arith, length-to_be 4 (2 ^ 32 - 1))),
        )
        (ground (arith, at.left_small))

  validate_bytes-accepts :
      (d : List ℕ) (b : Buf) (c : Cursor)
      → 0 < length d
      → length d < 2 ^ 31
      → At (bytes b) c (to_be 4 (length d) ++ d)
      → validate_var_byte_n io b c ≡ accept none (past c (to_be 4 (length d) ++ d))
  unfolding validate_var_byte_n
  validate_bytes-accepts d b c pos short at =
      rw
        (
          size-bytes b,
          At-left at 4 (omega (arith, total)),
          At-available at 4 (omega (arith, total)),
          peek_be-At 4 (length d) b c (At-first (to_be 4 (length d)) d at) (omega arith),
          validate_length,
          within,
          positive,
          At-available at (length d + 4) (omega (arith, total)),
          At-advance at (length d + 4) (sym total),
        )
        refl
    where
      total : length (to_be 4 (length d) ++ d) ≡ length d + 4
      total = omega (arith, length-append (to_be 4 (length d)) d, length-to_be 4 (length d))

      within : signed_lt c.left (sign_extend (length d)) ≡ false
      within = ground (arith, total, at.room, at.left_small)

      positive : not_positive (length d) ≡ false
      positive = ground arith

then_items_ok :
    {A : Type 0} {r : Validated A} (items : Cursor → Validated (List A)) {o : A} {os : List A}
    {c c' : Cursor}
    → r ≡ accept o c
    → items c ≡ accept os c'
    → then_items r items ≡ accept (o ∷ os) c'
then_items_ok items {o} e es = ap (λ r. then_items r items) e ∙ ap (push_item o) es

then_field_ok :
    {A B : Type 0} (start : Cursor) (untouched : B) {r : Validated A}
    (remaining : Cursor → Validated B) {o : A} {p : B} {c c' : Cursor}
    → r ≡ accept o c
    → remaining c ≡ accept p c'
    → then_field start untouched r remaining ≡ accept (o, p) c'
then_field_ok start untouched remaining {o} e es =
    ap (λ r. then_field start untouched r remaining) e ∙ ap (pair_field start o) es

-- What `item` does with a value of encoding `enc` is right.
abbrev Accepting :
    {A : Type 0} → List ℕ → (A → List ℕ) → (A → A → Type 0) → (Cursor → Validated A) → A → Type 0
Accepting {A} bs enc shape item v =
    (c : Cursor) → At bs c (enc v) → (o : A) × (item c ≡ accept o (past c (enc v))) × shape v o

validate_items-accepts :
    {A : Type 0} (bs : List ℕ) (enc : A → List ℕ) (shape : A → A → Type 0)
    (item : Cursor → Validated A) (vs : List A)
    → All (Accepting bs enc shape item) vs
    → (c : Cursor) → At bs c (concat_map enc vs)
    → (os : List A) × (validate_items item (length vs) c ≡ accept os (past c (concat_map enc vs)))
      × Each shape vs os
unfolding concat_map
validate_items-accepts bs enc shape item [] h c at =
    ([], validate_items-zero item c ∙ ap (accept []) (sym (past-nil c)), tt)
validate_items-accepts bs enc shape item (v ∷ vs) h c at =
    let (o, e, s) = h.0 c (At-first (enc v) (concat_map enc vs) at) in
    let (os, es, ss) =
      validate_items-accepts bs enc shape item vs h.1 (past c (enc v))
        (At-rest (enc v) (concat_map enc vs) at) in
    (
      o ∷ os,
      validate_items-suc item (length vs) c
          ∙ then_items_ok (validate_items item (length vs)) e es
          ∙ ap (accept (o ∷ os)) (past-append c (enc v) (concat_map enc vs)),
      (s, ss),
    )

module _ (io : Buffer) where
  open io use {Buf, bytes, size-bytes}

  abbrev AcceptsAt : (f : Fmt) → Buf → ℕ → Val f → Type 0
  AcceptsAt f b start = Accepting (bytes b) (encode f) (Shape f) (validate io f b start)

  validate_array-accepts :
      (f : Fmt) (b : Buf) (start : ℕ) (vs : List (Val f))
      → length vs < 2 ^ 16
      → All (AcceptsAt f b start) vs
      → AcceptsAt (array f) b start vs
  unfolding validate validate_array encode
  validate_array-accepts f b start vs short h c at =
      let count : length (to_be 2 (length vs)) ≡ 2 = length-to_be 2 (length vs) in
      let first = At-first (to_be 2 (length vs)) (concat_map (encode f) vs) at in
      let rest = At-rest (to_be 2 (length vs)) (concat_map (encode f) vs) at in
      let (os, e, shapes) =
        validate_items-accepts (bytes b) (encode f) (Shape f) (validate io f b start) vs h _ rest in
      (
        os,
        rw
            (
              size-bytes b,
              At-left first 2 (omega arith),
              At-available first 2 (omega arith),
              peek_be-At io 2 (length vs) b c first (omega arith),
              At-advance first 2 (sym count),
            )
            (ap (restore c) e
              ∙ ap (accept os) (past-append c (to_be 2 (length vs)) (concat_map (encode f) vs))),
        shapes,
      )

  -- `validate` accepts every encoded value that fits its format, wherever it stands in the buffer.
  pub validate-accepts :
      (f : Fmt) (v : Val f) (b : Buf) (start : ℕ) → Fits f v → AcceptsAt f b start v
  unfolding validate encode
  validate-accepts (int n) v b start fits c at = (0, validate_int-accepts io n v b c at, tt)
  validate-accepts string v b start fits c at = validate_string-accepts io v b start c fits at
  validate-accepts byte_n v b start fits c at = absurd fits
  validate-accepts var_byte_n none b start fits c at = (none, validate_null-accepts io b c at, tt)
  validate-accepts var_byte_n (some d) b start fits c at =
      (none, validate_bytes-accepts io d b c fits.0 fits.1 at, tt)
  validate-accepts (array f) vs b start fits c at =
      validate_array-accepts f b start vs fits.0
        (All-map vs (λ w h. validate-accepts f w b start h) fits.1) c at
  validate-accepts (repeated f) v b start fits c at = absurd fits
  validate-accepts done v b start fits c at = (tt, ap (accept tt) (sym (past-nil c)), tt)
  validate-accepts (seq f g) v b start fits c at =
      let (o, e, s) =
        validate-accepts f v.0 b start fits.0 c (At-first (encode f v.0) (encode g v.1) at) in
      let (p, e', s') =
        validate-accepts g v.1 b start fits.1 _ (At-rest (encode f v.0) (encode g v.1) at) in
      (
        (o, p),
        then_field_ok c (fresh g) (validate io g b start) e e'
            ∙ ap (accept (o, p)) (past-append c (encode f v.0) (encode g v.1)),
        (s, s'),
      )
