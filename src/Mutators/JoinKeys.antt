-- ===== src/Mutators/JoinKeys.antt =====
-- When the join keys of two literals are equal, and when their texts are.
use postgres_tde.Base.{
  Bool, List, [], ap, arith, false, if◌then◌else◌, leb, length, none, refl, some, subst, suc, sym,
  take, true, zero, ℕ, ◌&&◌, ◌++◌, ◌∙◌, ◌∷◌, ◌≡◌, ◌≤◌,
}
use mathlib.Core.Option
use postgres_tde.Manager.State.{ascii}
use postgres_tde.Sql.Ast.{Expr, literal_float, literal_int, literal_string, literal_null}
use postgres_tde.Sql.Text.{print_int}
use postgres_tde.Sql.Digits.{print_int-injective}
use postgres_tde.Config.Consistent.{same_text→eq, same_text_refl}
use postgres_tde.Encryption.Literal.{Crypto, literal_text}
use postgres_tde.Mutators.Literals.{Digests, generate_join_key_string, create_join_key_literal}
use postgres_tde.Mutators.JoinRows.{same_cell}
use postgres_tde.Mutators.JoinSpec.{
  Cell, Written, cell_at, literal_at, texts, cell_of, meets, text_equal, key_equal, AreOneKind,
  PairsOneKind,
}

cell_at-texts :
    (crypto : Crypto) (row : Written) (i : ℕ)
    → cell_at (texts crypto row) i ≡ literal_text crypto (literal_at row i)
cell_at-texts crypto [] i = refl
cell_at-texts crypto (e ∷ row) zero = refl
cell_at-texts crypto (e ∷ row) (suc i) = cell_at-texts crypto row i

module _ (digests : Digests) (crypto : Crypto) (size : ℕ) where
  -- What has no text has no key.
  textless_keyless :
      (e : Expr)
      → literal_text crypto e ≡ none
      → cell_of (create_join_key_literal digests size e) ≡ none
  unfolding create_join_key_literal
  textless_keyless (literal_string text) h = cc
  textless_keyless (literal_int negative i) h = cc
  textless_keyless (literal_float bytes text) h = cc
  textless_keyless literal_null h = refl
  textless_keyless _ h = refl

  -- Where the keys are equal, neither cell is NULL, so that the filter compares the texts.
  key_equal-same_cell :
      (a b : Expr)
      → key_equal digests size a b ≡ true
      → same_cell (literal_text crypto a) (literal_text crypto b)
        ≡ text_equal (literal_text crypto a) (literal_text crypto b)
  key_equal-same_cell a b h = go (literal_text crypto a) (literal_text crypto b) refl
    where
      keyless : cell_of (create_join_key_literal digests size a) ≡ none → ⊥
      keyless e =
          bad (sym h ∙ ap (λ c. text_equal c (cell_of (create_join_key_literal digests size b))) e)
        where
          bad : true ≡ false → ⊥
          bad e = cc

      go : (x y : Cell) → literal_text crypto a ≡ x → same_cell x y ≡ text_equal x y
      go (some x) (some y) e = refl
      go (some x) none e = refl
      go none (some y) e = refl
      go none none e = absurd (keyless (textless_keyless a e))

  pub meets-same_cell :
      (pairs : List (ℕ × ℕ)) (row : Written)
      → meets (key_equal digests size) pairs (literal_at row) ≡ true
      → meets same_cell pairs (cell_at (texts crypto row))
        ≡ meets text_equal pairs (cell_at (texts crypto row))
  unfolding meets
  meets-same_cell [] row h = refl
  meets-same_cell ((l, r) ∷ rest) row h =
      go (key_equal digests size (literal_at row l) (literal_at row r)) refl h
        (meets-same_cell rest row)
    where
      at : ℕ → Cell
      at = cell_at (texts crypto row)

      go :
          (b : Bool)
          → key_equal digests size (literal_at row l) (literal_at row r) ≡ b
          → (b && meets (key_equal digests size) rest (literal_at row)) ≡ true
          → (meets (key_equal digests size) rest (literal_at row) ≡ true
              → meets same_cell rest at ≡ meets text_equal rest at)
          → (same_cell (at l) (at r) && meets same_cell rest at)
            ≡ (text_equal (at l) (at r) && meets text_equal rest at)
      go true e h ih =
          ap (λ x. x && meets same_cell rest at)
            (rw (cell_at-texts crypto row l, cell_at-texts crypto row r)
              (key_equal-same_cell (literal_at row l) (literal_at row r) e))
          ∙ ap (λ x. text_equal (at l) (at r) && x) (ih h)
      go false e h ih = cc

  -- The digest is long enough for a key.
  abbrev pub Long : Type 0
  Long = (text : List ℕ) → size ≤ length (digests.sha256_digest text)

  same_key :
      (data_ : List ℕ)
      → Long
      → let key =
          cell_of (Option.map literal_string (generate_join_key_string digests size data_)) in
        text_equal key key ≡ true
  unfolding generate_join_key_string
  same_key data_ long =
      go (leb size (length (digests.sha256_digest data_))) (ground (arith, long data_))
    where
      key : List ℕ
      key = ascii "\\x" ++ digests.bytes_to_hex (take size (digests.sha256_digest data_))

      go :
          (c : Bool)
          → c ≡ true
          → let found = cell_of (Option.map literal_string (if c then some key else none)) in
            text_equal found found ≡ true
      go true e = same_text_refl key
      go false e = cc

  text_equal-key_equal :
      (a b : Expr)
      → Long
      → AreOneKind crypto a b
      → text_equal (literal_text crypto a) (literal_text crypto b) ≡ true
      → key_equal digests size a b ≡ true
  unfolding create_join_key_literal
  text_equal-key_equal (literal_string a) (literal_string b) long k h =
      subst (λ x. key_equal digests size (literal_string a) (literal_string x) ≡ true)
        (same_text→eq a b h) (same_key a long)
  text_equal-key_equal (literal_int s i) (literal_int t j) long k h =
      let (sign, magnitude) =
        print_int-injective s t i j k.0 k.1 (same_text→eq (print_int s i) (print_int t j) h) in
      subst (λ x. key_equal digests size (literal_int s i) (literal_int x j) ≡ true) sign
        (subst (λ x. key_equal digests size (literal_int s i) (literal_int s x) ≡ true) magnitude
          (same_key (digests.int_bytes s i) long))
  text_equal-key_equal (literal_float a x) (literal_float b y) long k h =
      subst (λ z. key_equal digests size (literal_float a x) (literal_float z y) ≡ true)
        (k (same_text→eq (crypto.to_string a) (crypto.to_string b) h)) (same_key a long)
  text_equal-key_equal literal_null b long k h = cc
  text_equal-key_equal (literal_string a) literal_null long k h = cc
  text_equal-key_equal (literal_int s i) literal_null long k h = cc
  text_equal-key_equal (literal_float a x) literal_null long k h = cc
  text_equal-key_equal _ literal_null long k h = cc
  text_equal-key_equal _ _ long k h = elim k [ ]

  pub meets-key_equal :
      (pairs : List (ℕ × ℕ)) (row : Written)
      → Long
      → PairsOneKind crypto pairs row
      → meets text_equal pairs (cell_at (texts crypto row)) ≡ true
      → meets (key_equal digests size) pairs (literal_at row) ≡ true
  unfolding meets
  meets-key_equal [] row long k h = refl
  meets-key_equal ((l, r) ∷ rest) row long k h =
      go (text_equal (at l) (at r)) refl h (meets-key_equal rest row long k.1)
    where
      at : ℕ → Cell
      at = cell_at (texts crypto row)

      go :
          (b : Bool)
          → text_equal (at l) (at r) ≡ b
          → (b && meets text_equal rest at) ≡ true
          → (meets text_equal rest at ≡ true
              → meets (key_equal digests size) rest (literal_at row) ≡ true)
          → (key_equal digests size (literal_at row l) (literal_at row r)
              && meets (key_equal digests size) rest (literal_at row))
            ≡ true
      go true e h ih =
          ap (λ x. x && meets (key_equal digests size) rest (literal_at row))
            (text_equal-key_equal (literal_at row l) (literal_at row r) long k.0
              (rw (← cell_at-texts crypto row l, ← cell_at-texts crypto row r) e))
          ∙ ih h
      go false e h ih = cc
