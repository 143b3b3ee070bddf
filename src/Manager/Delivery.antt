-- ===== src/Manager/Delivery.antt =====
-- How the result of a query reaches the client: all of it, when the command completes, or an error
-- and none of it.
use postgres_tde.Base.{List, Option, [], map, none, some, ◌++◌, ◌∷◌, ◌≡◌}
use mathlib.Core.List.{reverse}
use postgres_tde.Message.Format.{Val}
use postgres_tde.Protocol.{
  MsgClass, data_row_message, command_complete_message, body, Message, message,
}
use postgres_tde.Manager.Mutator.{Result, ok, error}
use postgres_tde.Manager.State.{
  RowDescription, DataRow, Tools, Manager, error_response, mutate_row_by, process_data_row,
  emit_description, completion,
}

-- What a run of the mutators over all rows of a result gives: the first error, or the rows that
-- no mutator discarded, as the mutators left them.
abbrev pub then_rows :
    {S : Type 0} → Result × Option DataRow × S → (S → Result × List DataRow) → Result × List DataRow
then_rows r more = elim r.0 [
  | ok ↦ elim r.1 [ none ↦ more r.2 | some row ↦ let rest = more r.2 in (rest.0, row ∷ rest.1) ]
  | error e ↦ (error e, [])
]

-- A message that the handler leaves to be forwarded goes behind what the handler emits.
abbrev pub goes_on : (type : MsgClass) → Option (Val (body type)) → List (Option Message)
goes_on type none = []
goes_on type (some v) = some (message type v) ∷ []

module _ {Query S : Type 0} (tools : Tools Query S) where
  pub result_rows : List DataRow → S → Result × List DataRow
  result_rows [] s = (ok, [])
  result_rows (v ∷ vs) s =
      then_rows (mutate_row_by (reverse tools.mutator_chain) v s) (result_rows vs)

  -- `processDataRow` for one row after the other: all that is emitted or goes on, and the last state.
  pub feed_rows : List DataRow → Manager S → List (Option Message) × Manager S
  feed_rows [] m = ([], m)
  feed_rows (v ∷ vs) m =
      let h = process_data_row tools v m in
      let rest = feed_rows vs h.after in
      (h.emitted ++ (goes_on data_row_message h.kept ++ rest.0), rest.1)

  -- The manager while rows come in.
  abbrev pub listening : Option RowDescription → List (Option DataRow) → S → Manager S
  listening d rows s = record {
    error_state = ok;
    retent_row_description = d;
    retent_rows = rows;
    mutators = s;
  }

  -- What the rows have done to the manager.
  record Fed (d : Option RowDescription) (rows : List (Option DataRow))
      (spec : Result × List DataRow) (fed : List (Option Message) × Manager S) : Type 0 where
    silent : fed.0 ≡ []
    description : fed.1.retent_row_description ≡ d
    outcome : fed.1.error_state ≡ spec.0
    retained : spec.0 ≡ ok → fed.1.retent_rows ≡ rows ++ map some spec.1

  -- What the client gets when the command completes. Behind an error the completion still goes on.
  abbrev pub delivered :
      Option RowDescription
      → Result × List DataRow
      → Val (body command_complete_message)
      → List (Option Message)
  delivered d (ok, rows) v =
      emit_description d
      ++ (map (λ row. some (message data_row_message row)) rows
          ++ some (message command_complete_message v) ∷ [])
  delivered d (error e, rows) v = error_response e ++ some (message command_complete_message v) ∷ []

  abbrev sent :
      Result
      → Val (body command_complete_message)
      → Option RowDescription
      → List (Option DataRow)
      → List (Option Message)
  sent r v d rows =
      completion r v d rows
      ++ goes_on command_complete_message (elim r [ ok ↦ none | error e ↦ some v ])
