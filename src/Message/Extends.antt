-- ===== src/Message/Extends.antt =====
-- A buffer with more data behind the same bytes, and the validators of postgres_message.h and .cc
-- for the field types that hold no others on it.
use postgres_tde.Base.{
  Bool-cases, List, Option-cases, [], ap, arith, drop, drop_of_append, from_be, inl, inr, leb,
  length, length-append, length-drop, none, refl, slice, slice_of_append, some, sub64, sym, true, ℕ,
  ◌++◌, ◌+◌, ◌-◌, ◌<◌, ◌==◌, ◌^◌, ◌∙◌, ◌∷◌, ◌≡◌, ◌≢◌, ◌≤◌,
}
use postgres_tde.Buffer.{Buffer, find_index}
use mathlib.Core.Option
use postgres_tde.Message.Format.{
  string, fresh, Cursor, Validated, validation_failed, validation_need_more_data,
}
use postgres_tde.Message.Validate.{
  validate_int, validate_string, validate_found, validate_byte_n, validate_var_byte_n,
  validate_length, reject,
}
use postgres_tde.Message.Inside.{Inside, find_index-lt}

-- The call did not ask for more data.
abbrev pub Decided : {A : Type 0} → Validated A → Type 0
Decided r = r.result ≢ validation_need_more_data

find_index_of_append :
    (c : ℕ) (xs ys : List ℕ) (j : ℕ) → find_index c xs ≡ some j → find_index c (xs ++ ys) ≡ some j
find_index_of_append c [] ys j h = absurd (cc h)
find_index_of_append c (x ∷ xs) ys j h = elim (Bool-cases (x == c)) [
  | inl e ↦ ground arith
  | inr e ↦ elim (Option-cases (find_index c xs)) [
    | inl n ↦ ground arith
    | inr (k, m) ↦ ground (arith, find_index_of_append c xs ys k m)
  ]
]

-- Without a zero byte in the first part, one is found behind it, if at all.
find_index_behind :
    (c : ℕ) (xs ys : List ℕ) (j : ℕ)
    → find_index c xs ≡ none
    → find_index c (xs ++ ys) ≡ some j
    → length xs ≤ j
find_index_behind c [] ys j n h = omega arith
find_index_behind c (x ∷ xs) ys j n h = elim (Bool-cases (x == c)) [
  | inl e ↦ absurd (ground arith)
  | inr e ↦ elim (Option-cases (find_index c xs)) [
    | inr (k, m) ↦ absurd (ground arith)
    | inl m ↦ elim (Option-cases (find_index c (xs ++ ys))) [
      | inl q ↦ absurd (ground arith)
      | inr (k, q) ↦ ground (arith, find_index_behind c xs ys k m q)
    ]
  ]
]

module _ (io : Buffer) where
  open io use {Buf, bytes, size, search, size-bytes, search-bytes, peek_be, peek_be-bytes}

  -- The buffer that has `b`'s bytes and more behind them.
  pub record Extends (b b' : Buf) : Type 0 where
    pub more : List ℕ
    pub holds : bytes b' ≡ bytes b ++ more
    pub small : length (bytes b') < 2 ^ 63

  module _ {b b' : Buf} (x : Extends b b') where
    pub Extends-length : length (bytes b') ≡ length (bytes b) + length x.more
    Extends-length = ap length x.holds ∙ length-append (bytes b) x.more

    pub Extends-peek_be : (n i : ℕ) → i + n ≤ length (bytes b) → peek_be n b' i ≡ peek_be n b i
    Extends-peek_be n i h =
        peek_be-bytes n b' i (omega (arith, Extends-length))
        ∙ ap (λ l. from_be (slice i n l)) x.holds
        ∙ ap from_be (slice_of_append i n (bytes b) x.more h)
        ∙ sym (peek_be-bytes n b i h)

    -- Two calls for the two buffers that agree, from a position inside the first one.
    abbrev pub Agree : {A : Type 0} → (Cursor → Validated A) → (Cursor → Validated A) → Type 0
    Agree item item' =
        (c : Cursor) → Inside (length (bytes b)) c → Decided (item c) → item' c ≡ item c

    pub validate_int-Agree : (n : ℕ) → Agree (validate_int io n b) (validate_int io n b')
    unfolding validate_int
    validate_int-Agree n c i h =
        ground (arith, size-bytes b, size-bytes b', Extends-length, x.small)

    pub validate_byte_n-Agree : Agree (validate_byte_n io b) (validate_byte_n io b')
    unfolding validate_byte_n
    validate_byte_n-Agree c i h =
        ground (arith, size-bytes b, size-bytes b', Extends-length, x.small)

    Extends-search-some :
        (c i j : ℕ)
        → i ≤ length (bytes b)
        → find_index c (drop i (bytes b)) ≡ some j
        → (search c b i ≡ some (i + j)) × (search c b' i ≡ some (i + j))
    Extends-search-some c i j h e = (
      search-bytes c b i h ∙ ap (Option.map (λ j. i + j)) e,
      search-bytes c b' i (omega (arith, Extends-length))
          ∙ ap (λ l. Option.map (λ j. i + j) (find_index c (drop i l))) x.holds
          ∙ ap (λ l. Option.map (λ j. i + j) (find_index c l)) (drop_of_append i (bytes b) x.more h)
          ∙ ap (Option.map (λ j. i + j)) (find_index_of_append c (drop i (bytes b)) x.more j e),
    )

    -- A terminator that only the longer buffer has is too far away.
    validate_found_behind :
        (start : ℕ) (c : Cursor) (k : ℕ)
        → c.left ≤ k
        → c.pos + k < 2 ^ 63
        → validate_found io start c (c.pos + k) ≡ reject validation_failed (fresh string) c
    unfolding validate_found
    validate_found_behind start c k far bound = ground arith

    validate_string_behind :
        (start : ℕ) (c : Cursor)
        → c.pos ≤ length (bytes b)
        → find_index 0 (drop c.pos (bytes b)) ≡ none
        → c.left ≤ length (bytes b) - c.pos
        → validate_string io b' start c ≡ reject validation_failed (fresh string) c
    unfolding validate_string
    validate_string_behind start c i e far =
        elim (Option-cases (find_index 0 (drop c.pos (bytes b')))) [
          | inl n ↦
              let s : search 0 b' c.pos ≡ none =
                search-bytes 0 b' c.pos (omega (arith, Extends-length))
                ∙ ap (Option.map (λ j. c.pos + j)) n in
              let t : leb c.left (sub64 (size b') c.pos) ≡ true =
                ground (arith, size-bytes b', Extends-length, x.small) in
              rw (s, t, validate_string) refl
          | inr (k, n) ↦
              let s : search 0 b' c.pos ≡ some (c.pos + k) =
                search-bytes 0 b' c.pos (omega (arith, Extends-length))
                ∙ ap (Option.map (λ j. c.pos + j)) n in
              let behind : length (drop c.pos (bytes b)) ≤ k =
                find_index_behind 0 (drop c.pos (bytes b)) x.more k e (
                  ap (find_index 0)
                    (sym (drop_of_append c.pos (bytes b) x.more i) ∙ ap (drop c.pos) (sym x.holds))
                  ∙ n) in
              rw (s, validate_string)
                (validate_found_behind start c k
                  (omega (arith, behind, length-drop c.pos (bytes b), far))
                  (omega (
                    arith,
                    find_index-lt 0 (drop c.pos (bytes b')) k n,
                    length-drop c.pos (bytes b'),
                    x.small,
                  )))
        ]

    pub validate_string-Agree :
        (start : ℕ) → Agree (validate_string io b start) (validate_string io b' start)
    unfolding validate_string
    validate_string-Agree start c i h = elim (Option-cases (find_index 0 (drop c.pos (bytes b)))) [
      | inr (j, e) ↦
          let s = Extends-search-some 0 c.pos j i e in rw (s.0, s.1, validate_string) refl
      | inl e ↦
          let s : search 0 b c.pos ≡ none =
            search-bytes 0 b c.pos i ∙ ap (Option.map (λ j. c.pos + j)) e in
          elim (Bool-cases (leb c.left (sub64 (size b) c.pos))) [
            | inl far ↦
                validate_string_behind start c i e
                  (ground (arith, size-bytes b, Extends-length, x.small, far))
                ∙ sym (rw (s, far, validate_string) refl)
            | inr near ↦ absurd (h (rw (s, near, validate_string) refl))
          ]
    ]

    validate_length-Agree :
        (len : ℕ) (c : Cursor)
        → Inside (length (bytes b)) c
        → Decided (validate_length io len b c)
        → validate_length io len b' c ≡ validate_length io len b c
    unfolding validate_length
    validate_length-Agree len c i h =
        ground (arith, size-bytes b, size-bytes b', Extends-length, x.small)

    pub validate_var_byte_n-Agree : Agree (validate_var_byte_n io b) (validate_var_byte_n io b')
    unfolding validate_var_byte_n
    validate_var_byte_n-Agree c i h = ground (
      arith,
      size-bytes b,
      size-bytes b',
      Extends-length,
      x.small,
      Extends-peek_be 4 c.pos,
      validate_length-Agree (peek_be 4 b c.pos) c i,
    )
