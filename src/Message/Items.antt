-- ===== src/Message/Items.antt =====
-- `Array` and `Sequence` of postgres_message.h on a buffer with more data behind the same bytes.
use postgres_tde.Base.{List, ap, arith, length, refl, subst, suc, sym, zero, ℕ, ◌∙◌, ◌≡◌}
use postgres_tde.Buffer.{Buffer}
use postgres_tde.Message.Format.{
  Cursor, Validated, ValidationResult, validation_failed, validation_ok, validation_need_more_data,
}
use postgres_tde.Message.Validate.{
  validate_array, validate_items, validate_items-zero, validate_items-suc, then_items, then_field,
  advance, push_item, pair_field, restore,
}
use postgres_tde.Message.Inside.{Inside}
use postgres_tde.Message.Extends.{Extends, Extends-length, Extends-peek_be, Agree, Decided}

module _ (io : Buffer) {b b' : Buffer.Buf io} (x : Extends io b b') where
  open io use {bytes, size, search, size-bytes, search-bytes, peek_be}

  then_items-Agree :
      {A : Type 0} (r r' : Validated A) (items items' : Cursor → Validated (List A))
      → Inside (length (bytes b)) r.cursor
      → (Decided r → r' ≡ r)
      → Agree io x items items'
      → Decided (then_items r items)
      → then_items r' items' ≡ then_items r items
  then_items-Agree {A} r r' items items' i same h decided = go r.result refl
    where
      go : (v : ValidationResult) → r.result ≡ v → then_items r' items' ≡ then_items r items
      go validation_need_more_data e = absurd (decided (rw e refl))
      go validation_failed e =
          ap (λ (q : Validated A). then_items q items') (same (λ n. cc)) ∙ rw e refl
      go validation_ok e =
          ap (λ (q : Validated A). then_items q items') (same (λ n. cc))
          ∙ rw e (ap (push_item r.object) (h r.cursor i (λ n. decided (rw (e, n) refl))))

  validate_items-Agree :
      {A : Type 0} (item item' : Cursor → Validated A) (k : ℕ)
      → ((c : Cursor) → Inside (length (bytes b)) c → Inside (length (bytes b)) (item c).cursor)
      → Agree io x item item'
      → Agree io x (validate_items item k) (validate_items item' k)
  validate_items-Agree item item' zero keeps h c i decided =
      validate_items-zero item' c ∙ sym (validate_items-zero item c)
  validate_items-Agree item item' (suc k) keeps h c i decided =
      validate_items-suc item' k c
      ∙ then_items-Agree (item c) (item' c) (validate_items item k) (validate_items item' k)
          (keeps c i) (h c i) (validate_items-Agree item item' k keeps h)
          (subst (λ r. Decided r) (validate_items-suc item k c) decided)
      ∙ sym (validate_items-suc item k c)

  restore-Agree :
      {A : Type 0} (c : Cursor) (r r' : Validated A)
      → (Decided r → r' ≡ r)
      → Decided (restore c r)
      → restore c r' ≡ restore c r
  restore-Agree {A} c r r' same decided =
      ap (λ (q : Validated A). restore c q) (same (go r.result refl))
    where
      go : (v : ValidationResult) → r.result ≡ v → Decided r
      go validation_need_more_data e = absurd (decided (rw e refl))
      go validation_failed e = λ n. cc
      go validation_ok e = λ n. cc

  pub validate_array-Agree :
      {A : Type 0} (item item' : Cursor → Validated A)
      → ((c : Cursor) → Inside (length (bytes b)) c → Inside (length (bytes b)) (item c).cursor)
      → Agree io x item item'
      → Agree io x (validate_array io item b) (validate_array io item' b')
  unfolding validate_array
  validate_array-Agree item item' keeps h c i = ground (
    arith,
    size-bytes b,
    size-bytes b',
    Extends-length io x,
    x.small,
    Extends-peek_be io x 2 c.pos,
    restore-Agree c (validate_items item (peek_be 2 b c.pos) (advance 2 c))
        (validate_items item' (peek_be 2 b c.pos) (advance 2 c)),
    validate_items-Agree item item' (peek_be 2 b c.pos) keeps h (advance 2 c),
  )

  pub then_field-Agree :
      {A B : Type 0} (c : Cursor) (untouched : B) (r r' : Validated A)
      (remaining remaining' : Cursor → Validated B)
      → Inside (length (bytes b)) r.cursor
      → (Decided r → r' ≡ r)
      → Agree io x remaining remaining'
      → Decided (then_field c untouched r remaining)
      → then_field c untouched r' remaining' ≡ then_field c untouched r remaining
  then_field-Agree {A} c untouched r r' remaining remaining' i same h decided = go r.result refl
    where
      go :
          (v : ValidationResult)
          → r.result ≡ v
          → then_field c untouched r' remaining' ≡ then_field c untouched r remaining
      go validation_need_more_data e = absurd (decided (rw e refl))
      go validation_failed e =
          ap (λ (q : Validated A). then_field c untouched q remaining') (same (λ n. cc)) ∙ rw e refl
      go validation_ok e =
          ap (λ (q : Validated A). then_field c untouched q remaining') (same (λ n. cc))
          ∙ rw e (ap (pair_field c r.object) (h r.cursor i (λ n. decided (rw (e, n) refl))))
