-- ===== src/Message/Stable.antt =====
-- postgres_message.h and .cc: `validate` on data to which more is added.
use postgres_tde.Base.{arith, length, refl, ℕ, ◌≡◌, ◌≢◌}
use postgres_tde.Buffer.{Buffer}
use postgres_tde.Message.Format.{
  Fmt, int, string, byte_n, var_byte_n, array, repeated, done, seq, fresh, Cursor,
  validation_need_more_data,
}
use postgres_tde.Message.Validate.{validate}
use postgres_tde.Message.Inside.{Inside, validate-Inside}
use postgres_tde.Message.Extends.{Extends, Extends-length, Agree}
use postgres_tde.Message.Extends.{
  validate_int-Agree, validate_byte_n-Agree, validate_string-Agree, validate_var_byte_n-Agree,
}
use postgres_tde.Message.Items.{then_field-Agree, validate_array-Agree}
use postgres_tde.Message.Room.{
  Stays, validate_int-Stays, validate_string-Stays, then_field-Stays, validate_repeated-Agree,
}

-- Formats whose validator looks no further than `left`: integers and strings, and sequences of
-- those.
abbrev pub Plain : Fmt → Type 0
Plain (int n) = Unit {0}
Plain string = Unit {0}
Plain byte_n = ⊥
Plain var_byte_n = ⊥
Plain (array f) = ⊥
Plain (repeated f) = ⊥
Plain done = Unit {0}
Plain (seq f g) = Plain f × Plain g

-- Formats in which only such formats are repeated.
abbrev pub PlainRepeats : Fmt → Type 0
PlainRepeats (int n) = Unit {0}
PlainRepeats string = Unit {0}
PlainRepeats byte_n = Unit {0}
PlainRepeats var_byte_n = Unit {0}
PlainRepeats (array f) = PlainRepeats f
PlainRepeats (repeated f) = Plain f
PlainRepeats done = Unit {0}
PlainRepeats (seq f g) = PlainRepeats f × PlainRepeats g

Plain-PlainRepeats : (f : Fmt) → Plain f → PlainRepeats f
Plain-PlainRepeats (int n) p = tt
Plain-PlainRepeats string p = tt
Plain-PlainRepeats byte_n p = absurd p
Plain-PlainRepeats var_byte_n p = absurd p
Plain-PlainRepeats (array f) p = absurd p
Plain-PlainRepeats (repeated f) p = absurd p
Plain-PlainRepeats done p = tt
Plain-PlainRepeats (seq f g) p = (Plain-PlainRepeats f p.0, Plain-PlainRepeats g p.1)

module _ (io : Buffer) {b b' : Buffer.Buf io} (x : Extends io b b') where
  open io use {bytes}

  validate-Stays : (f : Fmt) (start : ℕ) → Plain f → Stays io x (validate io f b start)
  unfolding validate
  validate-Stays (int n) start p c room = validate_int-Stays io x n c room
  validate-Stays string start p c room = validate_string-Stays io x start c room
  validate-Stays byte_n start p c room = absurd p
  validate-Stays var_byte_n start p c room = absurd p
  validate-Stays (array f) start p c room = absurd p
  validate-Stays (repeated f) start p c room = absurd p
  validate-Stays done start p c room = (λ n. cc, λ n. room)
  validate-Stays (seq f g) start p c room =
      then_field-Stays io x c (fresh g) (validate io f b start c) (validate io g b start)
        (validate-Stays f start p.0 c room) (λ d r. validate-Stays g start p.1 d r)

  keeps_Inside :
      (f : Fmt) (start : ℕ) (c : Cursor)
      → Inside (length (bytes b)) c
      → Inside (length (bytes b)) (validate io f b start c).cursor
  keeps_Inside f start c i =
      validate-Inside io f b start c (omega (arith, Extends-length io x, x.small)) i

  validate-Agree :
      (f : Fmt) (start : ℕ)
      → PlainRepeats f
      → Agree io x (validate io f b start) (validate io f b' start)
  unfolding validate
  validate-Agree (int n) start p = validate_int-Agree io x n
  validate-Agree string start p = validate_string-Agree io x start
  validate-Agree byte_n start p = validate_byte_n-Agree io x
  validate-Agree var_byte_n start p = validate_var_byte_n-Agree io x
  validate-Agree (array f) start p =
      validate_array-Agree io x (validate io f b start) (validate io f b' start)
        (keeps_Inside f start) (validate-Agree f start p)
  validate-Agree (repeated f) start p =
      validate_repeated-Agree io x (validate io f b start) (validate io f b' start)
        (validate-Stays f start p) (validate-Agree f start (Plain-PlainRepeats f p))
  validate-Agree done start p = λ c i h. refl
  validate-Agree (seq f g) start p = λ c i h.
      then_field-Agree io x c (fresh g) (validate io f b start c) (validate io f b' start c)
        (validate io g b start) (validate io g b' start) (keeps_Inside f start c i)
        (validate-Agree f start p.0 c i) (validate-Agree g start p.1) h

  -- Once `validate` has decided, that is it did not ask for more data, it decides the same and
  -- leaves the same object and position when more bytes stand behind those of the buffer, for every
  -- format that repeats only integers, strings and sequences of those, from every position inside
  -- the buffer. (The buffers have less than 2 ^ 63 bytes.)
  pub validate-stable :
      (f : Fmt) (start : ℕ) (c : Cursor)
      → PlainRepeats f
      → Inside (length (bytes b)) c
      → (validate io f b start c).result ≢ validation_need_more_data
      → validate io f b' start c ≡ validate io f b start c
  validate-stable f start c p i h = validate-Agree f start p c i h
