-- ===== src/Examples/Rows.antt =====
-- postgres_mutation_manager.cc at a concrete result.
use postgres_tde.Base.{List, [], false, none, refl, some, ℕ, ◌∷◌, ◌≡◌}
use postgres_tde.Message.Format.{Val}
use postgres_tde.Protocol.{row_description_message, command_complete_message, body, message}
use postgres_tde.Manager.Mutator.{ok, Mutator}
use postgres_tde.Manager.State.{
  RowDescription, DataRow, Tools, Manager, ascii, process_query_impl, process_query,
  process_row_description, process_command_complete, process_error_response, mutate_description_by,
}
use postgres_tde.Manager.Delivery.{listening}
use postgres_tde.Manager.Stale.{second_completion_emits_null, description_outlives_its_query}

-- A mutator that drops rows with no columns.
abbrev pub dropping : Mutator (List ℕ) Unit
dropping = record {
  mutate_query = λ q s. (ok, q, s);
  mutate_row_description = λ d s. (ok, d, s);
  mutate_data_row = λ row s. (ok, elim row.0 [ [] ↦ none | c ∷ cs ↦ some row ], s);
}

abbrev pub tools : Tools (List ℕ) Unit
tools = record {
  parse = λ q. some q;
  dump = λ q. (ok, q);
  mutator_chain = dropping ∷ [];
  permissive_parsing = false;
}

abbrev pub text : List ℕ → Val (body command_complete_message)
text t = (record { start = 0; end = 0; value = t }, tt)

abbrev pub full_row : DataRow
full_row = (some (1 ∷ []) ∷ [], tt)

abbrev two_rows : List DataRow
two_rows = ([], tt) ∷ full_row ∷ []

abbrev pub holding : Manager Unit
holding = listening tools none (some full_row ∷ []) tt

second_completion_emits_null_example :
    (process_command_complete tools
      (text (ascii "SELECT 1"))
      (process_command_complete tools (text (ascii "SELECT 1")) holding).after).emitted
    ≡ none ∷ some (message command_complete_message (text (ascii "SELECT 1"))) ∷ []
second_completion_emits_null_example =
    second_completion_emits_null tools (text (ascii "SELECT 1")) (text (ascii "SELECT 1")) holding
      refl

abbrev no_columns : RowDescription
no_columns = ([], tt)

-- The first query fails after its description; the second is an INSERT.
description_outlives_its_query_example :
    let before = (process_row_description tools no_columns holding).after in
    let failed = (process_error_response tools ([], (0, tt)) before).after in
    let next = process_query tools (text (ascii "INSERT")) failed in
    (process_command_complete tools (text (ascii "INSERT 0 1")) next.after).emitted
    ≡ some (message row_description_message no_columns)
      ∷ some (message command_complete_message (text (ascii "INSERT 0 1")))
      ∷ []
unfolding mutate_description_by process_query_impl
description_outlives_its_query_example =
    description_outlives_its_query tools no_columns no_columns ([], (0, tt)) (text (ascii "INSERT"))
      (text (ascii "INSERT 0 1")) holding tt tt (ascii "INSERT") refl refl
