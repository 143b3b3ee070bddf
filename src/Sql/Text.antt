-- ===== src/Sql/Text.antt =====
-- dump_visitor.cc: the texts that the printer puts together.
use postgres_tde.Base.{
  Bool, List, Option, [], if◌then◌else◌, ltb, none, some, suc, zero, ℕ, ◌%◌, ◌++◌, ◌+◌, ◌/◌, ◌∷◌,
}
use Prim.Native.String.{String}
use postgres_tde.Manager.State.{ascii}
use postgres_tde.Sql.Ast.{
  Operator, op_none, op_between, op_case, op_case_list_element, op_plus, op_minus, op_asterisk,
  op_slash, op_percentage, op_caret, op_equals, op_not_equals, op_less, op_less_eq, op_greater,
  op_greater_eq, op_like, op_not_like, op_ilike, op_and, op_or, op_in, op_concat, op_not,
  op_unary_minus, op_is_null, op_exists, Limit, Exprs, no_more, and_then, Orders, no_more_orders,
  order_by, Tables, no_tables, table_and, Shape, binary, prefix, postfix, membership, unsupported,
}

-- What a visit adds to `query_str_`, the text of an error, or the end of the program.
pub data Dumped : Type 0 where
  dumped : List ℕ → Dumped
  failed : List ℕ → Dumped
  broken : Dumped

infixr 5 ◌<<◌
-- One after the other; the first that does not print decides.
abbrev pub ◌<<◌ : Dumped → Dumped → Dumped
dumped a << dumped b = dumped (a ++ b)
dumped a << failed e = failed e
dumped a << broken = broken
failed e << d = failed e
broken << d = broken

abbrev pub put : String → Dumped
put s = dumped (ascii s)

-- The decimal digits of a number below 10 ^ fuel.
unfoldable pub digits : ℕ → ℕ → List ℕ
digits zero n = []
digits (suc fuel) n =
    let more = digits fuel (n / 10) in
    if ltb n 10 then (48 + n) ∷ [] else more ++ (48 + n % 10) ∷ []

-- A 64-bit integer in decimal has at most 20 digits.
abbrev pub decimal : ℕ → List ℕ
decimal n = digits 20 n

abbrev pub print_int : Bool → ℕ → List ℕ
print_int negative n = if negative then b'-' ∷ decimal n else decimal n

-- `operatorToString`, of the operators that do not panic.
unfoldable pub operator_to_string : Operator → List ℕ
operator_to_string op_plus = ascii "+"
operator_to_string op_minus = ascii "-"
operator_to_string op_asterisk = ascii "*"
operator_to_string op_slash = ascii "/"
operator_to_string op_percentage = ascii "%"
operator_to_string op_caret = ascii ""
operator_to_string op_equals = ascii "="
operator_to_string op_not_equals = ascii "!="
operator_to_string op_less = ascii "<"
operator_to_string op_less_eq = ascii "<="
operator_to_string op_greater = ascii ">"
operator_to_string op_greater_eq = ascii ">="
operator_to_string op_like = ascii "LIKE"
operator_to_string op_not_like = ascii "NOT LIKE"
operator_to_string op_ilike = ascii "ILIKE"
operator_to_string op_and = ascii "AND"
operator_to_string op_or = ascii "OR"
operator_to_string op_in = ascii "IN"
operator_to_string op_concat = ascii "||"
operator_to_string op_not = ascii "NOT"
operator_to_string op_unary_minus = ascii "-"
operator_to_string op_is_null = ascii "IS NULL"
operator_to_string op_exists = ascii "EXISTS"
operator_to_string op_none = []
operator_to_string op_between = []
operator_to_string op_case = []
operator_to_string op_case_list_element = []

abbrev pub quoted : List ℕ → List ℕ
quoted text = b'\'' ∷ text ++ b'\'' ∷ []

abbrev pub dump_column : Option (List ℕ) → List ℕ → Option (List ℕ) → List ℕ
dump_column table name alias =
    elim table [ none ↦ [] | some t ↦ t ++ ascii "." ]
    ++ (name ++ elim alias [ none ↦ [] | some a ↦ ascii " AS " ++ a ])

abbrev pub unable_to_dump : List ℕ
unable_to_dump = ascii "postgres_tde: unable to dump query"

abbrev pub comma_before : Exprs → Dumped
comma_before no_more = dumped []
comma_before (and_then e es) = put ", "

abbrev pub comma_before_order : Orders → Dumped
comma_before_order no_more_orders = dumped []
comma_before_order (order_by e asc os) = put ", "

abbrev pub comma_before_table : Tables → Dumped
comma_before_table no_tables = dumped []
comma_before_table (table_and t ts) = put ", "

unfoldable pub dump_limit : Option Limit → List ℕ
dump_limit none = []
dump_limit (some l) =
    elim l.limit [ none ↦ [] | some n ↦ ascii " LIMIT " ++ decimal n ]
    ++ elim l.offset [ none ↦ [] | some n ↦ ascii " OFFSET " ++ decimal n ]

-- `visitOperatorExpression`, by the operator's case, its name and its operands.
abbrev pub dump_operator : Shape → Dumped → Dumped → Dumped → Dumped → Dumped
dump_operator binary name expr expr2 exprs =
    put "(" << expr << put ") " << name << put " (" << expr2 << put ")"
dump_operator prefix name expr expr2 exprs = name << put " " << put "(" << expr << put ")"
dump_operator postfix name expr expr2 exprs = put "(" << expr << put ") " << name
dump_operator membership name expr expr2 exprs =
    put "(" << expr << put ") " << name << put " (" << exprs << put ")"
dump_operator unsupported name expr expr2 exprs = broken
