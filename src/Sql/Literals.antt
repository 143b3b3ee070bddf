-- ===== src/Sql/Literals.antt =====
-- How a server reads the string literals that the printer writes.
use postgres_tde.Base.{
  List, Option, [], ap, append_assoc, false, if◌then◌else◌, none, refl, some, ℕ, ◌++◌, ◌==◌, ◌∙◌,
  ◌∷◌, ◌≡◌,
}
use postgres_tde.Sql.Ast.{literal_string}
use postgres_tde.Sql.Dump.{dump_expression}
use postgres_tde.Sql.Text.{Dumped, dumped, failed, broken}

-- A string literal behind its opening quote, by the SQL standard: its characters, where a doubled
-- quote stands for one, and the text behind the closing quote.
abbrev pub push_char : ℕ → Option (List ℕ × List ℕ) → Option (List ℕ × List ℕ)
push_char c none = none
push_char c (some (text, rest)) = some (c ∷ text, rest)

unfoldable pub read_rest : List ℕ → Option (List ℕ × List ℕ)
read_rest [] = none
read_rest (c ∷ []) = if c == b'\'' then some ([], []) else none
read_rest (c ∷ c' ∷ cs) =
    let doubled = push_char b'\'' (read_rest cs) in
    let more = push_char c (read_rest (c' ∷ cs)) in
    if c == b'\'' then (if c' == b'\'' then doubled else some ([], c' ∷ cs)) else more

unfoldable pub read_literal : List ℕ → Option (List ℕ × List ℕ)
unfolding read_rest
read_literal [] = none
read_literal (c ∷ cs) = if c == b'\'' then read_rest cs else none

abbrev pub output : Dumped → List ℕ
output (dumped text) = text
output (failed e) = []
output broken = []

abbrev pub HasNoQuote : List ℕ → Type 0
HasNoQuote [] = Unit
HasNoQuote (c ∷ cs) = ((c == b'\'') ≡ false) × HasNoQuote cs

abbrev pub IsUnquoted : List ℕ → Type 0
IsUnquoted [] = Unit
IsUnquoted (c ∷ cs) = (c == b'\'') ≡ false

read_rest-end : (rest : List ℕ) → IsUnquoted rest → read_rest (b'\'' ∷ rest) ≡ some ([], rest)
unfolding read_rest
read_rest-end [] h = refl
read_rest-end (c ∷ cs) h = rw h refl

read_rest-quoted :
    (text rest : List ℕ)
    → HasNoQuote text
    → IsUnquoted rest
    → read_rest (text ++ b'\'' ∷ rest) ≡ some (text, rest)
unfolding read_rest
read_rest-quoted [] rest h k = read_rest-end rest k
read_rest-quoted (c ∷ []) rest h k = rw h.0 (ap (push_char c) (read_rest-end rest k))
read_rest-quoted (c ∷ c' ∷ cs) rest h k =
    rw h.0 (ap (push_char c) (read_rest-quoted (c' ∷ cs) rest h.1 k))

-- A string literal without a quote in it is printed so that a server reads the same string, and
-- goes on right behind it.
pub dumped_literal_reads_back :
    (text rest : List ℕ)
    → HasNoQuote text
    → IsUnquoted rest
    → read_literal (output (dump_expression (literal_string text)) ++ rest) ≡ some (text, rest)
unfolding read_literal dump_expression
dumped_literal_reads_back text rest h k =
    ap read_rest (append_assoc text (b'\'' ∷ []) rest) ∙ read_rest-quoted text rest h k

-- A string literal with a quote in it is not escaped: a server reads the part before the first
-- quote, if no second quote follows it, and takes the part behind it for SQL.
pub dumped_quote_ends_literal :
    (before after rest : List ℕ)
    → HasNoQuote before
    → IsUnquoted (after ++ b'\'' ∷ rest)
    → read_literal (output (dump_expression (literal_string (before ++ b'\'' ∷ after))) ++ rest)
      ≡ some (before, after ++ b'\'' ∷ rest)
unfolding read_literal dump_expression
dumped_quote_ends_literal before after rest h k =
    ap read_rest (
      append_assoc (before ++ b'\'' ∷ after) (b'\'' ∷ []) rest
      ∙ append_assoc before (b'\'' ∷ after) (b'\'' ∷ rest))
    ∙ read_rest-quoted before (after ++ b'\'' ∷ rest) h k
