-- ===== src/Message/Format.antt =====
-- The field types of postgres_message.h as formats, and the objects that hold their values.
use postgres_tde.Base.{Bool, List, Option, [], none, zero, ℕ}

-- One constructor for each template: `int n` is `Int<T>` with `sizeof(T)` equal to `n`; `seq` is
-- `Sequence<First, Remaining...>` and `done` is `Sequence<>`.
pub data Fmt : Type 0 where
  int : ℕ → Fmt
  string byte_n var_byte_n : Fmt
  array repeated : Fmt → Fmt
  done : Fmt
  seq : Fmt → Fmt → Fmt

-- `class String`: `start` and `end` are set by `validate`, and `value` by `read`.
pub record Str : Type 0 where
  pub start : ℕ
  pub end : ℕ
  pub value : List ℕ

-- The object of each class. A null `VarByteN` is `none`.
abbrev pub Val : Fmt → Type 0
Val (int n) = ℕ
Val string = Str
Val byte_n = List ℕ
Val var_byte_n = Option (List ℕ)
Val (array f) = List (Val f)
Val (repeated f) = List (Val f)
Val done = Unit {0}
Val (seq f g) = Val f × Val g

-- A new object. (`start_` and `end_` have no initial value in the source, and are not read before
-- `validate` sets them.)
abbrev pub fresh : (f : Fmt) → Val f
fresh (int n) = zero
fresh string = record { start = 0; end = 0; value = [] }
fresh byte_n = []
fresh var_byte_n = none
fresh (array f) = []
fresh (repeated f) = []
fresh done = tt
fresh (seq f g) = (fresh f, fresh g)

-- `Message::ValidationResult`.
pub data ValidationResult : Type 0 where
  validation_failed validation_ok validation_need_more_data : ValidationResult

-- The reference parameters `pos` and `left`.
pub record Cursor : Type 0 where
  pub pos : ℕ
  pub left : ℕ

-- What a call of `validate` leaves: its result, the object, and the parameters.
pub record Validated (A : Type 0) : Type 0 where
  pub result : ValidationResult
  pub object : A
  pub cursor : Cursor

-- What a call of `read` leaves.
pub record Reading (A : Type 0) : Type 0 where
  pub success : Bool
  pub object : A
  pub cursor : Cursor
