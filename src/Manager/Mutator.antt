-- ===== src/Manager/Mutator.antt =====
-- mutators/mutator.h: the interface of a mutator; and common/utils/utils.h: the result of a call.
use postgres_tde.Base.{List, Option, ℕ}
use postgres_tde.Message.Format.{Val}
use postgres_tde.Protocol.{row_description_message, data_row_message, body}

-- `struct Result`: `Result::ok`, or the text of `makeError`. A call that ends the program has no
-- result: what is said of the manager is said of calls that return.
pub data Result : Type 0 where
  ok : Result
  error : List ℕ → Result

-- `class Mutator`, over the parsed query and the fields of all mutators. Each call gives its
-- result, the object that it changes in place, and the fields. A row that is reset is `none`.
pub record Mutator (Query : Type 0) (S : Type 0) : Type 0 where
  pub mutate_query : Query → S → Result × Query × S
  pub mutate_row_description :
      Val (body row_description_message) → S → Result × Val (body row_description_message) × S
  pub mutate_data_row :
      Val (body data_row_message) → S → Result × Option (Val (body data_row_message)) × S
