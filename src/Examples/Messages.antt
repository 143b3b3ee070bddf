-- ===== src/Examples/Messages.antt =====
-- postgres_message.h at concrete messages.
use postgres_tde.Base.{
  List, [], arith, be_value, length, length-append, length-to_be, none, refl, some, suc, to_be,
  zero, ℕ, ◌++◌, ◌+◌, ◌-◌, ◌<◌, ◌^◌, ◌∷◌, ◌≡◌, ◌≢◌, ◌≤◌,
}
use postgres_tde.Buffer.{list_buffer}
use postgres_tde.Message.Format.{
  validation_ok, validation_need_more_data, Fmt, byte_n, var_byte_n, array, done, seq, Val,
}
use postgres_tde.Message.Validate.{accept, validate}
use postgres_tde.Message.Read.{finished, read}
use postgres_tde.Message.Write.{write, get_size}
use postgres_tde.Message.Content.{encode, Same}
use postgres_tde.Message.Place.{past}
use postgres_tde.Message.RoundTrip.{read-validate-write}
use postgres_tde.Message.Recovers.{span}
use postgres_tde.Message.Inside.{Inside, validate-Inside}
use postgres_tde.Message.Size.{get_size-lt-length}
use postgres_tde.Message.Extends.{Extends}
use postgres_tde.Message.Stable.{validate-stable}
use postgres_tde.Message.Empty.{empty_becomes_null, overrun_accepted}

-- A row of two columns: a NULL and three bytes.
abbrev row_format : Fmt
row_format = seq (array var_byte_n) done

abbrev row : Val row_format
row = (none ∷ some (7 ∷ 8 ∷ 9 ∷ []) ∷ [], tt)

-- What the round trip states of the row, in a buffer that has three more bytes.
abbrev row_bytes : List ℕ
row_bytes = encode row_format row

read-validate-write_example :
    (o : Val row_format) × (validate list_buffer row_format
        (row_bytes ++ 1 ∷ 2 ∷ 3 ∷ [])
        0
        (span 0 (length row_bytes))
      ≡ accept o (span (0 + length row_bytes) 0))
    × (w : Val row_format) × (read list_buffer row_format o row_bytes (span 0 (length row_bytes))
        ≡ finished w (span (length row_bytes) 0))
    × Same row_format row w
unfolding write encode to_be
read-validate-write_example =
    read-validate-write list_buffer row_format row [] (row_bytes ++ 1 ∷ 2 ∷ 3 ∷ []) row_bytes
      (1 ∷ 2 ∷ 3 ∷ []) 0 ((omega arith, (tt, ((omega arith, omega arith), tt))), tt) refl
      (omega arith) refl

validate-Inside_example :
    Inside 4 (validate list_buffer row_format (0 ∷ 1 ∷ 0 ∷ 0 ∷ []) 0 (span 0 4)).cursor
validate-Inside_example =
    validate-Inside list_buffer row_format (0 ∷ 1 ∷ 0 ∷ 0 ∷ []) 0 (span 0 4) (omega arith)
      (omega arith)

-- The row, and three more bytes behind it.
row_extended : Extends list_buffer row_bytes (row_bytes ++ 1 ∷ 2 ∷ 3 ∷ [])
unfolding encode to_be
row_extended = record { more = 1 ∷ 2 ∷ 3 ∷ []; holds = refl; small = omega arith }

ok_is_decided : validation_ok ≢ validation_need_more_data
ok_is_decided e = cc

validate-stable_example :
    validate list_buffer row_format (row_bytes ++ 1 ∷ 2 ∷ 3 ∷ []) 0 (span 0 (length row_bytes))
    ≡ validate list_buffer row_format row_bytes 0 (span 0 (length row_bytes))
unfolding encode to_be validate be_value
validate-stable_example =
    validate-stable list_buffer row_extended row_format 0 (span 0 (length row_bytes)) (tt, tt)
      (omega arith) ok_is_decided

empty_becomes_null_example :
    (validate list_buffer var_byte_n (to_be 4 0) 0 (span 0 4)
      ≡ accept none (past (span 0 4) (encode var_byte_n (some []))))
    × (read list_buffer var_byte_n none (to_be 4 0) (span 0 4)
        ≡ finished none (past (span 0 4) (encode var_byte_n (some []))))
    × (write list_buffer var_byte_n none [] ≡ [] ++ to_be 4 (2 ^ 32 - 1))
unfolding to_be encode
empty_becomes_null_example = empty_becomes_null list_buffer (to_be 4 0) [] (span 0 4) (record {
  post = [];
  inside = omega arith;
  small = omega arith;
  here = refl;
  room = omega arith;
  left_small = omega arith;
})

-- A value of six bytes in a message that has six bytes left for its length and itself.
overrun_accepted_example :
    validate list_buffer var_byte_n (to_be 4 6 ++ (1 ∷ 2 ∷ 3 ∷ 4 ∷ 5 ∷ 6 ∷ [])) 0 (span 0 6)
    ≡ accept none (record { pos = 10; left = 2 ^ 64 + 6 - 10 })
unfolding to_be
overrun_accepted_example =
    overrun_accepted list_buffer 6 (to_be 4 6 ++ (1 ∷ 2 ∷ 3 ∷ 4 ∷ 5 ∷ 6 ∷ [])) (span 0 6)
      (omega arith) (omega arith) refl (omega arith) (omega arith) (omega arith) (omega arith)
      (omega arith)

repeat : ℕ → ℕ → List ℕ
repeat zero c = []
repeat (suc n) c = c ∷ repeat n c

length-repeat : (n c : ℕ) → length (repeat n c) ≡ n
unfolding repeat
length-repeat zero c = refl
length-repeat (suc n) c = omega (arith, length-repeat n c)

-- An array of one item with 65536 bytes.
abbrev large : List (Val byte_n)
large = repeat 65536 7 ∷ []

large-length : 2 + 2 ^ 16 ≤ length (encode (array byte_n) large)
unfolding encode
large-length = omega (
  arith,
  length-append (to_be 2 1) (repeat 65536 7 ++ []),
  length-to_be 2 1,
  length-append (repeat 65536 7) [],
  length-repeat 65536 7,
)

get_size-lt-length_example : get_size (array byte_n) large < length (encode (array byte_n) large)
get_size-lt-length_example = get_size-lt-length byte_n large large-length
