-- ===== src/Manager/State.antt =====
-- postgres_mutation_manager.cc: `MutationManagerImpl`.
use postgres_tde.Base.{Bool, List, Option, [], if◌then◌else◌, map, none, some, ℕ, ◌++◌, ◌∷◌}
use mathlib.Core.List.{reverse}
use Prim.Native.String.{String}
use Prim.Native.Char.{code}
use postgres_tde.Message.Format.{Val}
use postgres_tde.Protocol.{
  query_message, parse_message, row_description_message, data_row_message, command_complete_message,
  empty_query_response_message, error_response_message, body, Message, message,
  create_ready_for_query_message, create_error_response_message,
}
use postgres_tde.Decoder.State.{Handled, Handler}
use postgres_tde.Manager.Mutator.{Result, ok, error, Mutator}

abbrev pub RowDescription : Type 0
RowDescription = Val (body row_description_message)

abbrev pub DataRow : Type 0
DataRow = Val (body data_row_message)

-- What the manager uses and this library does not define here: the parser of the SQL library (`none`
-- for a query that is not valid), `DumpVisitor::visitQuery` with `getResult`, the mutators in
-- their order, and `permissive_parsing_`.
pub record Tools (Query : Type 0) (S : Type 0) : Type 0 where
  pub parse : List ℕ → Option Query
  pub dump : Query → Result × List ℕ
  pub mutator_chain : List (Mutator Query S)
  pub permissive_parsing : Bool

-- The fields of `MutationManagerImpl` that change. A retained row is null once it was moved away.
pub record Manager (S : Type 0) : Type 0 where
  pub error_state : Result
  pub retent_row_description : Option RowDescription
  pub retent_rows : List (Option DataRow)
  pub mutators : S

abbrev pub passed : {A M : Type 0} → A → M → Handled A M
passed a m = record { kept = some a; emitted = []; after = m }

-- The texts of the errors, as bytes.
abbrev pub ascii : String → List ℕ
ascii String.[] = []
ascii (String.◌∷◌ c s) = code c ∷ ascii s

abbrev pub unable_to_parse : List ℕ
unable_to_parse = ascii "postgres_tde: unable to parse query"

abbrev pub no_prepared_statements : List ℕ
no_prepared_statements = ascii "postgres_tde: prepared statements are not supported"

-- `emitErrorResponse`: what it emits. It also sets `error_state_` to `Result::ok`.
abbrev pub error_response : List ℕ → List (Option Message)
error_response text =
    some (create_error_response_message text) ∷ some create_ready_for_query_message ∷ []

-- The loop of `processQueryImpl` over the mutators: the first error ends it.
unfoldable pub mutate_query_by :
    {Query S : Type 0} → List (Mutator Query S) → Query → S → Result × Query × S
mutate_query_by [] q s = (ok, q, s)
mutate_query_by (m ∷ ms) q s =
    let r = m.mutate_query q s in
    elim r.0 [ ok ↦ mutate_query_by ms r.1 r.2 | error text ↦ (error text, r.1, r.2) ]

-- The loop of `processRowDescription`, over the mutators in reverse order.
unfoldable pub mutate_description_by :
    {Query S : Type 0} → List (Mutator Query S) → RowDescription → S → Result × RowDescription × S
mutate_description_by [] d s = (ok, d, s)
mutate_description_by (m ∷ ms) d s =
    let r = m.mutate_row_description d s in
    elim r.0 [ ok ↦ mutate_description_by ms r.1 r.2 | error text ↦ (error text, r.1, r.2) ]

-- The loop of `processDataRow`: it also ends when a mutator has discarded the row.
unfoldable pub mutate_row_by :
    {Query S : Type 0} → List (Mutator Query S) → DataRow → S → Result × Option DataRow × S
mutate_row_by [] row s = (ok, some row, s)
mutate_row_by (m ∷ ms) row s =
    let r = m.mutate_data_row row s in
    elim r.0 [
      | ok ↦ elim r.1 [ none ↦ (ok, none, r.2) | some row' ↦ mutate_row_by ms row' r.2 ]
      | error text ↦ (error text, none, r.2)
    ]

-- `processDataRow` behind the loop: `error_state_` takes the result, and a row that no mutator
-- discarded is retained.
abbrev pub retain : {S : Type 0} → Result × Option DataRow × S → Manager S → Manager S
retain r m =
    let m' = record m { error_state = r.0; mutators = r.2 } in
    elim r.0 [
      | ok ↦ elim r.1 [
        | none ↦ m'
        | some row ↦ record m' { retent_rows = m.retent_rows ++ some row ∷ [] }
      ]
      | error e ↦ m'
    ]

abbrev pub emit_description : Option RowDescription → List (Option Message)
emit_description none = []
emit_description (some v) = some (message row_description_message v) ∷ []

-- A moved-from row is a null pointer, and is emitted as one.
abbrev pub emit_row : Option DataRow → Option Message
emit_row none = none
emit_row (some v) = some (message data_row_message v)

-- What `processCommandComplete` emits, by `error_state_`.
abbrev pub completion :
    Result
    → Val (body command_complete_message)
    → Option RowDescription
    → List (Option DataRow)
    → List (Option Message)
completion ok v d rows =
    emit_description d ++ (map emit_row rows ++ some (message command_complete_message v) ∷ [])
completion (error e) v d rows = error_response e

-- What it leaves: `std::move` has emptied the pointers, which stay in `retent_rows_`.
abbrev pub completed : {S : Type 0} → Result → Manager S → Manager S
completed ok m = record m {
  retent_row_description = none;
  retent_rows = map (λ row. none) m.retent_rows;
}
completed (error e) m = record m { error_state = ok }

-- `processQuery` behind `processQueryImpl`.
abbrev pub queried :
    {S : Type 0}
    → Result × List ℕ × S
    → Val (body query_message)
    → Manager S
    → Handled (Val (body query_message)) (Manager S)
queried (ok, text, s) v m = record {
  kept = some (record v.0 { value = text }, tt);
  emitted = [];
  after = record m { retent_rows = []; mutators = s };
}
queried (error e, text, s) v m = record {
  kept = none;
  emitted = error_response e;
  after = record m { error_state = ok; retent_rows = []; mutators = s };
}

-- `processRowDescription` behind the loop.
abbrev pub described :
    {S : Type 0}
    → Result × RowDescription × S
    → Manager S
    → Handled (Val (body row_description_message)) (Manager S)
described (ok, d, s) m = record {
  kept = none;
  emitted = [];
  after = record m { error_state = ok; retent_row_description = some d; mutators = s };
}
described (error e, d, s) m = record {
  kept = none;
  emitted = [];
  after = record m { error_state = error e; mutators = s };
}

module _ {Query S : Type 0} (tools : Tools Query S) where
  open tools use {parse, dump, mutator_chain, permissive_parsing}

  -- `processQueryImpl` behind the parser: the result, the new text, and the mutators' fields.
  unfoldable pub rewrite_query : Query → S → List ℕ → Result × List ℕ × S
  unfolding mutate_query_by
  rewrite_query q s text =
      let r = mutate_query_by mutator_chain q s in
      let dumped = dump r.1 in
      elim r.0 [
        | ok ↦ elim dumped.0 [ ok ↦ (ok, dumped.1, r.2) | error e ↦ (error e, text, r.2) ]
        | error e ↦ (error e, text, r.2)
      ]

  unfoldable pub process_query_impl : List ℕ → S → Result × List ℕ × S
  unfolding rewrite_query
  process_query_impl text s = elim (parse text) [
    | none ↦ if permissive_parsing then (ok, text, s) else (error unable_to_parse, text, s)
    | some q ↦ rewrite_query q s text
  ]

  unfoldable pub process_query : Handler (Manager S) query_message
  unfolding process_query_impl
  process_query v m = queried (process_query_impl v.0.value m.mutators) v m

  unfoldable pub process_parse : Handler (Manager S) parse_message
  process_parse v m = record {
    kept = none;
    emitted = some (create_error_response_message no_prepared_statements) ∷ [];
    after = m;
  }

  unfoldable pub process_row_description : Handler (Manager S) row_description_message
  unfolding mutate_description_by
  process_row_description v m =
      described (mutate_description_by (reverse mutator_chain) v m.mutators) m

  unfoldable pub process_data_row : Handler (Manager S) data_row_message
  unfolding mutate_row_by
  process_data_row v m = elim m.error_state [
    | error e ↦ record { kept = none; emitted = []; after = m }
    | ok ↦ record {
      kept = none;
      emitted = [];
      after = retain (mutate_row_by (reverse mutator_chain) v m.mutators) m;
    }
  ]

  unfoldable pub process_command_complete : Handler (Manager S) command_complete_message
  process_command_complete v m = record {
    kept = elim m.error_state [ ok ↦ none | error e ↦ some v ];
    emitted = completion m.error_state v m.retent_row_description m.retent_rows;
    after = completed m.error_state m;
  }

  unfoldable pub process_empty_query_response : Handler (Manager S) empty_query_response_message
  process_empty_query_response v m = passed v m

  unfoldable pub process_error_response : Handler (Manager S) error_response_message
  process_error_response v m = passed v m
