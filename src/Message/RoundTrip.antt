-- ===== src/Message/RoundTrip.antt =====
-- `read` recovers what `write` produced.
use postgres_tde.Base.{
  List, [], ap, append-nil, append_assoc, arith, drop, drop-append, false, length, length-append,
  length-to_be, none, refl, some, sub64, sym, to_be, ℕ, ◌++◌, ◌+◌, ◌-◌, ◌<◌, ◌^◌, ◌∙◌, ◌∷◌, ◌≡◌,
}
use postgres_tde.Buffer.{Buffer}
use postgres_tde.Message.Format.{
  Fmt, int, string, byte_n, var_byte_n, array, repeated, done, seq, Val, Str, Cursor,
}
use postgres_tde.Message.Content.{write-bytes, All-map, Fits, Same, encode, concat_map}
use postgres_tde.Message.Accepts.{validate-accepts, peek_be-At}
use postgres_tde.Message.Place.{
  Shape, At, past, past-nil, past-append, At-length, At-slice, At-advance, At-first, At-rest,
}
use postgres_tde.Message.Validate.{accept, validate, advance, not_positive}
use postgres_tde.Message.Write.{write}
use postgres_tde.Message.Read.{
  finished, read, read_string, read_var_byte_n, read_items, pair_read, read_remaining,
}
use postgres_tde.Message.Recovers.{Recovering, read_items-recovers, span}

module _ (io : Buffer) where
  open io use {Buf, bytes, peek_be, copy_out, copy_out-bytes}

  read_string-recovers :
      (v o : Str) (b : Buf) (c : Cursor)
      → Shape string v o
      → At (bytes b) c (v.value ++ 0 ∷ [])
      → (w : Str) × (read_string io o b c ≡ finished w (past c (v.value ++ 0 ∷ [])))
        × Same string v w
  unfolding read_string
  read_string-recovers v o b c s at = (
    record o { value = copy_out b c.pos (sub64 o.end o.start) },
    rw s (ap (finished _) (At-advance at (length v.value + 1) (sym total))),
    sym (
        rw s (
          copy_out-bytes b c.pos (length v.value) (omega (arith, At-length first))
          ∙ At-slice first)),
  )
    where
      total : length (v.value ++ 0 ∷ []) ≡ length v.value + 1
      total = omega (arith, length-append v.value (0 ∷ []))

      first : At (bytes b) c v.value
      first = At-first v.value (0 ∷ []) at

  read_null-recovers :
      (b : Buf) (c : Cursor)
      → At (bytes b) c (to_be 4 (2 ^ 32 - 1))
      → read_var_byte_n io b c ≡ finished none (past c (to_be 4 (2 ^ 32 - 1)))
  unfolding read_var_byte_n
  read_null-recovers b c at =
      rw (peek_be-At io 4 (2 ^ 32 - 1) b c at (omega arith))
        (ap (finished none) (At-advance at 4 (sym (length-to_be 4 (2 ^ 32 - 1)))))

  read_bytes-recovers :
      (d : List ℕ) (b : Buf) (c : Cursor)
      → 0 < length d
      → length d < 2 ^ 31
      → At (bytes b) c (to_be 4 (length d) ++ d)
      → read_var_byte_n io b c ≡ finished (some d) (past c (to_be 4 (length d) ++ d))
  unfolding read_var_byte_n
  read_bytes-recovers d b c pos short at =
      rw (peek_be-At io 4 (length d) b c first (omega arith), positive)
        (ap (λ k. finished (some (copy_out b k.pos (length d))) (advance (length d) k))
            (At-advance first 4 (sym (length-to_be 4 (length d))))
          ∙ ap (finished (some _)) (At-advance rest (length d) refl)
          ∙ ap (λ x. finished (some x) (past (past c (to_be 4 (length d))) d)) data_eq
          ∙ ap (finished (some d)) (past-append c (to_be 4 (length d)) d))
    where
      first : At (bytes b) c (to_be 4 (length d))
      first = At-first (to_be 4 (length d)) d at

      rest : At (bytes b) (past c (to_be 4 (length d))) d
      rest = At-rest (to_be 4 (length d)) d at

      positive : not_positive (length d) ≡ false
      positive = ground arith

      data_eq : copy_out b (c.pos + length (to_be 4 (length d))) (length d) ≡ d
      data_eq = copy_out-bytes b _ (length d) (At-length rest) ∙ At-slice rest

  abbrev RecoversAt : (f : Fmt) → Buf → Val f → Type 0
  RecoversAt f b = Recovering (bytes b) (encode f) (Shape f) (Same f) (λ o. read io f o b)

  -- `read` recovers every encoded value that fits its format, from an object that `validate` left.
  pub read-recovers : (f : Fmt) (v : Val f) (b : Buf) → Fits f v → RecoversAt f b v
  unfolding read encode
  read-recovers (int n) v b fits o c s at = (
    v,
    rw (peek_be-At io n v b c at fits) (ap (finished v) (At-advance at n (sym (length-to_be n v)))),
    refl,
  )
  read-recovers string v b fits o c s at = read_string-recovers v o b c s at
  read-recovers byte_n v b fits o c s at = absurd fits
  read-recovers var_byte_n none b fits o c s at = (none, read_null-recovers b c at, refl)
  read-recovers var_byte_n (some d) b fits o c s at =
      (some d, read_bytes-recovers d b c fits.0 fits.1 at, refl)
  read-recovers (array f) vs b fits os c s at =
      let first = At-first (to_be 2 (length vs)) (concat_map (encode f) vs) at in
      let (ws, e, q) =
        read_items-recovers (bytes b) (encode f) (Shape f) (Same f) (λ o. read io f o b) vs os
          (All-map vs (λ w h. read-recovers f w b h) fits.1) s (past c (to_be 2 (length vs)))
          (At-rest (to_be 2 (length vs)) (concat_map (encode f) vs) at) in
      (
        ws,
        ap
              (λ k.
                let items = read_items (λ x. read io f x b) k os (advance 2 c) in
                finished items.0 items.1)
              (peek_be-At io 2 (length vs) b c first (omega arith))
            ∙ ap
                (λ k.
                  let items = read_items (λ x. read io f x b) (length vs) os k in
                  finished items.0 items.1)
                (At-advance first 2 (sym (length-to_be 2 (length vs))))
            ∙ ap (λ items. finished items.0 items.1) e
            ∙ ap (finished ws) (past-append c (to_be 2 (length vs)) (concat_map (encode f) vs)),
        q,
      )
  read-recovers (repeated f) v b fits o c s at = absurd fits
  read-recovers done v b fits o c s at = (tt, ap (finished tt) (sym (past-nil c)), tt)
  read-recovers (seq f g) v b fits o c s at =
      let (w, e, q) =
        read-recovers f v.0 b fits.0 o.0 c s.0 (At-first (encode f v.0) (encode g v.1) at) in
      let (x, e', q') =
        read-recovers g v.1 b fits.1 o.1 _ s.1 (At-rest (encode f v.0) (encode g v.1) at) in
      (
        (w, x),
        ap (λ r. read_remaining o.1 r (read io g o.1 b)) e
            ∙ ap (pair_read w) e'
            ∙ ap (finished (w, x)) (past-append c (encode f v.0) (encode g v.1)),
        (q, q'),
      )

  -- A field that was written behind the contents of a buffer is accepted by `validate` at that
  -- place, whatever follows it there, and `read`, in a buffer that holds the field alone, gives the
  -- value back. This holds for every format and every value that fits it.
  pub read-validate-write :
      (f : Fmt) (v : Val f) (to b m : Buf) (after : List ℕ) (start : ℕ)
      → Fits f v
      → bytes b ≡ bytes (write io f v to) ++ after
      → length (bytes b) < 2 ^ 63
      → bytes m ≡ encode f v
      → (o : Val f) × (validate io f b start (span (length (bytes to)) (length (encode f v)))
          ≡ accept o (span (length (bytes to) + length (encode f v)) 0))
        × (w : Val f) × (read io f o m (span 0 (length (encode f v)))
            ≡ finished w (span (length (encode f v)) 0))
        × Same f v w
  read-validate-write f v to b m after start fits eq small meq =
      let (o, e, s) = validate-accepts io f v b start fits _ here in
      let (w, e', q) = read-recovers f v m fits o _ s alone in
      (
        o,
        e ∙ ap (λ k. accept o (span (length (bytes to) + length (encode f v)) k)) none_left,
        w,
        e'
            ∙ ap (λ k. finished w (span k (length (encode f v) - length (encode f v)))) no_more
            ∙ ap (λ k. finished w (span (length (encode f v)) k)) none_left,
        q,
      )
    where
      content : bytes b ≡ bytes to ++ (encode f v ++ after)
      content =
          eq
          ∙ ap (λ l. l ++ after) (write-bytes io f v to)
          ∙ append_assoc (bytes to) (encode f v) after

      none_left : length (encode f v) - length (encode f v) ≡ 0
      none_left = omega arith

      no_more : 0 + length (encode f v) ≡ length (encode f v)
      no_more = omega arith

      whole : length (bytes b) ≡ length (bytes to) + (length (encode f v) + length after)
      whole =
          ap length content
          ∙ length-append (bytes to) (encode f v ++ after)
          ∙ ap (λ k. length (bytes to) + k) (length-append (encode f v) after)

      here : At (bytes b) (span (length (bytes to)) (length (encode f v))) (encode f v)
      here = record {
        post = after;
        inside = omega (arith, whole);
        small = omega arith;
        here = ap (drop (length (bytes to))) content ∙ drop-append (bytes to) (encode f v ++ after);
        room = omega arith;
        left_small = omega (arith, whole);
      }

      alone : At (bytes m) (span 0 (length (encode f v))) (encode f v)
      alone = record {
        post = [];
        inside = omega arith;
        small = omega (arith, whole, ap length meq);
        here = meq ∙ sym (append-nil (encode f v));
        room = omega arith;
        left_small = omega (arith, whole);
      }
