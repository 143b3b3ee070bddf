-- ===== src/Message/Room.antt =====
-- `Repeated` of postgres_message.h, which asks for all that is left of the message before it looks
-- at its items.
use postgres_tde.Base.{
  Bool-cases, List, Option-cases, [], ap, arith, drop, false, inl, inr, leb, length, length-drop,
  ltb, none, refl, some, sub64, suc, true, zero, ℕ, ◌+◌, ◌-◌, ◌<◌, ◌==◌, ◌∙◌, ◌∷◌, ◌≡◌, ◌≤◌,
}
use postgres_tde.Buffer.{Buffer, find_index}
use mathlib.Core.Option
use postgres_tde.Message.Format.{
  Cursor, Validated, ValidationResult, validation_failed, validation_ok, validation_need_more_data,
}
use postgres_tde.Message.Validate.{
  validate_int, validate_string, validate_found, validate_repeated, validate_while, then_field,
  accept,
}
use postgres_tde.Message.Inside.{find_index-lt}
use postgres_tde.Message.Extends.{Extends, Extends-length, Agree, Decided}

module _ (io : Buffer) {b b' : Buffer.Buf io} (x : Extends io b b') where
  open io use {bytes, size, search, size-bytes, search-bytes, peek_be}

  -- All that is left of the message is in the buffer.
  abbrev Room : Cursor → Type 0
  Room c = (c.pos ≤ length (bytes b)) × (c.left ≤ length (bytes b) - c.pos)

  -- With all that is left of the message in the buffer, no call asks for more data, and what is
  -- left behind an accepted field is there as well.
  abbrev pub Stays : {A : Type 0} → (Cursor → Validated A) → Type 0
  Stays item =
      (c : Cursor)
      → Room c
      → Decided (item c) × ((item c).result ≡ validation_ok → Room (item c).cursor)

  pub validate_int-Stays : (n : ℕ) → Stays (validate_int io n b)
  unfolding validate_int
  validate_int-Stays n c room = (
    λ e. ground (arith, size-bytes b, Extends-length io x, x.small),
    λ e. (
      ground (arith, size-bytes b, Extends-length io x, x.small),
      ground (arith, size-bytes b, Extends-length io x, x.small),
    ),
  )

  validate_found-Stays :
      (start : ℕ) (c : Cursor) (j : ℕ)
      → Room c
      → c.pos + j < length (bytes b)
      → let r = validate_found io start c (c.pos + j) in
        Decided r × (r.result ≡ validation_ok → Room r.cursor)
  unfolding validate_found
  validate_found-Stays start c j room lt = (
    λ e. ground (arith, Extends-length io x, x.small),
    λ e. (
      ground (arith, Extends-length io x, x.small),
      ground (arith, Extends-length io x, x.small),
    ),
  )

  pub validate_string-Stays : (start : ℕ) → Stays (validate_string io b start)
  unfolding validate_string
  validate_string-Stays start c room = elim (Option-cases (find_index 0 (drop c.pos (bytes b)))) [
    | inl e ↦
        let s : search 0 b c.pos ≡ none =
          search-bytes 0 b c.pos room.0 ∙ ap (Option.map (λ j. c.pos + j)) e in
        let t : leb c.left (sub64 (size b) c.pos) ≡ true =
          ground (arith, size-bytes b, Extends-length io x, x.small) in
        rw (s, t, validate_string) (λ n. cc, λ n. absurd (cc n))
    | inr (j, e) ↦
        let s : search 0 b c.pos ≡ some (c.pos + j) =
          search-bytes 0 b c.pos room.0 ∙ ap (Option.map (λ j. c.pos + j)) e in
        rw (s, validate_string)
          (validate_found-Stays start c j room (
            omega (arith, find_index-lt 0 (drop c.pos (bytes b)) j e, length-drop c.pos (bytes b))))
  ]

  pub then_field-Stays :
      {A B : Type 0} (c : Cursor) (untouched : B) (r : Validated A)
      (remaining : Cursor → Validated B)
      → Decided r × (r.result ≡ validation_ok → Room r.cursor)
      → Stays remaining
      → let t = then_field c untouched r remaining in
        Decided t × (t.result ≡ validation_ok → Room t.cursor)
  then_field-Stays c untouched r remaining h stays = go r.result refl
    where
      last :
          (v : ValidationResult)
          → (remaining r.cursor).result ≡ v
          → r.result ≡ validation_ok
          → let t = then_field c untouched r remaining in
            Decided t × (t.result ≡ validation_ok → Room t.cursor)
      last validation_need_more_data e ok = absurd ((stays r.cursor (h.1 ok)).0 e)
      last validation_failed e ok = rw (ok, e) (λ n. cc, λ n. absurd (cc n))
      last validation_ok e ok = rw (ok, e) (λ n. cc, λ n. (stays r.cursor (h.1 ok)).1 e)

      go :
          (v : ValidationResult)
          → r.result ≡ v
          → let t = then_field c untouched r remaining in
            Decided t × (t.result ≡ validation_ok → Room t.cursor)
      go validation_need_more_data e = absurd (h.0 e)
      go validation_failed e = rw e (λ n. cc, λ n. absurd (cc n))
      go validation_ok e = last (remaining r.cursor).result refl e

  -- One turn of `validate_while`, behind its calls.
  abbrev while_turn : {A : Type 0} → Cursor → Validated A → List A × Cursor → List A × Cursor
  while_turn c r rest = elim (c.left == 0) [
    | true ↦ ([], c)
    | false ↦ elim r.result [ validation_ok ↦ (r.object ∷ rest.0, rest.1) | bad ↦ ([], r.cursor) ]
  ]

  validate_while-Agree :
      {A : Type 0} (item item' : Cursor → Validated A)
      → Stays item
      → Agree io x item item'
      → (fuel : ℕ) (c : Cursor) → Room c
      → validate_while fuel item' c ≡ validate_while fuel item c
  unfolding validate_while
  validate_while-Agree item item' stays h zero c room = refl
  validate_while-Agree {A} item item' stays h (suc fuel) c room =
      ap (λ (q : Validated A). while_turn c q (validate_while fuel item' q.cursor))
        (h c room.0 (stays c room).0)
      ∙ go (item c).result refl
          (λ ok. validate_while-Agree item item' stays h fuel (item c).cursor ((stays c room).1 ok))
    where
      go :
          (v : ValidationResult)
          → (item c).result ≡ v
          → ((item c).result ≡ validation_ok
              → validate_while fuel item' (item c).cursor
                ≡ validate_while fuel item (item c).cursor)
          → while_turn c (item c) (validate_while fuel item' (item c).cursor)
            ≡ while_turn c (item c) (validate_while fuel item (item c).cursor)
      go validation_need_more_data e ih = absurd ((stays c room).0 e)
      go validation_failed e ih = rw e refl
      go validation_ok e ih = ap (while_turn c (item c)) (ih e)

  pub validate_repeated-Agree :
      {A : Type 0} (item item' : Cursor → Validated A)
      → Stays item
      → Agree io x item item'
      → Agree io x (validate_repeated io item b) (validate_repeated io item' b')
  unfolding validate_repeated
  validate_repeated-Agree item item' stays h c i decided =
      elim (Bool-cases (ltb (sub64 (size b) c.pos) c.left)) [
        | inl e ↦ absurd (decided (rw e refl))
        | inr e ↦
            let e' : ltb (sub64 (size b') c.pos) c.left ≡ false =
              ground (arith, size-bytes b, size-bytes b', Extends-length io x, x.small, e) in
            let room : c.left ≤ length (bytes b) - c.pos =
              ground (arith, size-bytes b, Extends-length io x, x.small, e) in
            rw (e, e')
              (ap (λ (w : List _ × Cursor). accept w.0 w.1)
                (validate_while-Agree item item' stays h c.left c (i, room)))
      ]
