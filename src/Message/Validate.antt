-- ===== src/Message/Validate.antt =====
-- The `validate` methods of postgres_message.h and postgres_message.cc. `pos` and `left` are
-- `uint64_t`, so their arithmetic wraps.
use postgres_tde.Base.{
  Bool, List, Option, [], add64, false, if◌then◌else◌, leb, ltb, none, refl, some, sub64, suc, true,
  zero, ℕ, ◌+◌, ◌-◌, ◌==◌, ◌^◌, ◌||◌, ◌∷◌, ◌≡◌,
}
use postgres_tde.Buffer.{Buffer}
use postgres_tde.Message.Format.{
  Fmt, int, string, byte_n, var_byte_n, array, repeated, done, seq, Str, Val, fresh,
  ValidationResult, validation_failed, validation_ok, validation_need_more_data, Cursor, Validated,
}

abbrev pub accept : {A : Type 0} → A → Cursor → Validated A
accept a c = record { result = validation_ok; object = a; cursor = c }

abbrev pub reject : {A : Type 0} → ValidationResult → A → Cursor → Validated A
reject r a c = record { result = r; object = a; cursor = c }

-- `pos += n; left -= n;`
abbrev pub advance : ℕ → Cursor → Cursor
advance n c = record { pos = add64 c.pos n; left = sub64 c.left n }

-- An `int32_t` bit pattern, sign-extended to 64 bits, and `<` on `int64_t` bit patterns.
abbrev pub sign_extend : ℕ → ℕ
sign_extend w = if ltb w (2 ^ 31) then w else w + (2 ^ 64 - 2 ^ 32)

abbrev pub signed_lt : ℕ → ℕ → Bool
signed_lt a b = ltb (add64 a (2 ^ 63)) (add64 b (2 ^ 63))

-- `len < 1` on an `int32_t`.
abbrev pub not_positive : ℕ → Bool
not_positive w = (w == 0) || leb (2 ^ 31) w

-- An item that was accepted goes before the next ones; a failure clears the items.
abbrev pub push_item : {A : Type 0} → A → Validated (List A) → Validated (List A)
push_item o rest = elim rest.result [
  | validation_ok ↦ accept (o ∷ rest.object) rest.cursor
  | bad ↦ reject bad [] rest.cursor
]

abbrev pub then_items :
    {A : Type 0} → Validated A → (Cursor → Validated (List A)) → Validated (List A)
then_items r items = elim r.result [
  | validation_ok ↦ push_item r.object (items r.cursor)
  | bad ↦ reject bad [] r.cursor
]

-- The loop of `Array::validate` over `size` items.
unfoldable pub validate_items :
    {A : Type 0} → (Cursor → Validated A) → ℕ → Cursor → Validated (List A)
validate_items item zero c = accept [] c
validate_items item (suc n) c = then_items (item c) (validate_items item n)

pub validate_items-zero :
    {A : Type 0} (item : Cursor → Validated A) (c : Cursor)
    → validate_items item zero c ≡ accept [] c
unfolding validate_items
validate_items-zero item c = refl

pub validate_items-suc :
    {A : Type 0} (item : Cursor → Validated A) (n : ℕ) (c : Cursor)
    → validate_items item (suc n) c ≡ then_items (item c) (validate_items item n)
unfolding validate_items
validate_items-suc item n c = refl

-- The loop of `Repeated::validate`: `while (left != 0)`, left at the first item that is not valid.
unfoldable pub validate_while : {A : Type 0} → ℕ → (Cursor → Validated A) → Cursor → List A × Cursor
validate_while zero item c = ([], c)
validate_while (suc fuel) item c =
    let r = item c in
    let rest = validate_while fuel item r.cursor in
    elim (c.left == 0) [
      | true ↦ ([], c)
      | false ↦ elim r.result [ validation_ok ↦ (r.object ∷ rest.0, rest.1) | bad ↦ ([], r.cursor) ]
    ]

-- On a failure `Array` and `Sequence` put `pos` and `left` back.
abbrev pub restore : {A : Type 0} → Cursor → Validated A → Validated A
restore c r = elim r.result [ validation_ok ↦ r | bad ↦ reject bad r.object c ]

-- The fields of a `Sequence`, one after the other; on a failure `pos` and `left` are put back.
abbrev pub pair_field : {A B : Type 0} → Cursor → A → Validated B → Validated (A × B)
pair_field c o rest = elim rest.result [
  | validation_ok ↦ accept (o, rest.object) rest.cursor
  | bad ↦ reject bad (o, rest.object) c
]

abbrev pub then_field :
    {A B : Type 0} → Cursor → B → Validated A → (Cursor → Validated B) → Validated (A × B)
then_field c untouched first remaining = elim first.result [
  | validation_ok ↦ pair_field c first.object (remaining first.cursor)
  | bad ↦ reject bad (first.object, untouched) c
]

module _ (io : Buffer) where
  open io use {Buf, size, search, peek_be}

  unfoldable pub validate_int : ℕ → Buf → Cursor → Validated ℕ
  validate_int n b c =
      if ltb c.left n
      then reject validation_failed 0 c
      else if ltb (sub64 (size b) c.pos) n
      then reject validation_need_more_data 0 c
      else accept 0 (advance n c)

  unfoldable pub validate_found : ℕ → Cursor → ℕ → Validated Str
  validate_found start_offset c index =
      let size = sub64 index c.pos in
      let start = sub64 c.pos start_offset in
      if leb c.left size
      then reject validation_failed (fresh string) c
      else accept (record { start = start; end = add64 start size; value = [] })
          (advance (size + 1) c)

  unfoldable pub validate_string : Buf → ℕ → Cursor → Validated Str
  unfolding validate_found
  validate_string b start_offset c = elim (search 0 b c.pos) [
    | none ↦
        if leb c.left (sub64 (size b) c.pos)
        then reject validation_failed (fresh string) c
        else reject validation_need_more_data (fresh string) c
    | some index ↦ validate_found start_offset c index
  ]

  unfoldable pub validate_byte_n : Buf → Cursor → Validated (List ℕ)
  validate_byte_n b c =
      if ltb (sub64 (size b) c.pos) c.left
      then reject validation_need_more_data [] c
      else accept [] (record { pos = add64 c.pos c.left; left = 0 })

  unfoldable pub validate_length : ℕ → Buf → Cursor → Validated (Option (List ℕ))
  validate_length len b c =
      if signed_lt c.left (sign_extend len)
      then reject validation_failed none c
      else if not_positive len
      then accept none (advance 4 c)
      else if ltb (sub64 (size b) c.pos) (len + 4)
      then reject validation_need_more_data none c
      else accept none (advance (len + 4) c)

  unfoldable pub validate_var_byte_n : Buf → Cursor → Validated (Option (List ℕ))
  unfolding validate_length
  validate_var_byte_n b c =
      if ltb c.left 4
      then reject validation_failed none c
      else if ltb (sub64 (size b) c.pos) 4
      then reject validation_need_more_data none c
      else validate_length (peek_be 4 b c.pos) b c

  unfoldable pub validate_array :
      {A : Type 0} → (Cursor → Validated A) → Buf → Cursor → Validated (List A)
  unfolding validate_items
  validate_array item b c =
      if ltb c.left 2
      then reject validation_failed [] c
      else if ltb (sub64 (size b) c.pos) 2
      then reject validation_need_more_data [] c
      else restore c (validate_items item (peek_be 2 b c.pos) (advance 2 c))

  -- Each turn of the loop that goes on takes at least one byte off `left`, which is the fuel.
  unfoldable pub validate_repeated :
      {A : Type 0} → (Cursor → Validated A) → Buf → Cursor → Validated (List A)
  unfolding validate_while
  validate_repeated item b c =
      if ltb (sub64 (size b) c.pos) c.left
      then reject validation_need_more_data [] c
      else let (items, c') = validate_while c.left item c in accept items c'

  unfoldable pub validate : (f : Fmt) → Buf → ℕ → Cursor → Validated (Val f)
  unfolding validate_int validate_string validate_byte_n validate_var_byte_n validate_array
      validate_repeated
  validate (int n) b start_offset c = validate_int n b c
  validate string b start_offset c = validate_string b start_offset c
  validate byte_n b start_offset c = validate_byte_n b c
  validate var_byte_n b start_offset c = validate_var_byte_n b c
  validate (array f) b start_offset c = validate_array (validate f b start_offset) b c
  validate (repeated f) b start_offset c = validate_repeated (validate f b start_offset) b c
  validate done b start_offset c = accept tt c
  validate (seq f g) b start_offset c =
      then_field c (fresh g) (validate f b start_offset c) (validate g b start_offset)
