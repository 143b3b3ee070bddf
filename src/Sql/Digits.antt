-- ===== src/Sql/Digits.antt =====
-- The texts of integers, as dump_visitor.cc and `std::to_string` print them, tell the integers apart.
use postgres_tde.Base.{
  Bool, List, [], ap, arith, false, if◌then◌else◌, ltb, refl, suc, sym, true, zero, ℕ, ◌%◌, ◌*◌,
  ◌++◌, ◌+◌, ◌-◌, ◌/◌, ◌<◌, ◌^◌, ◌∙◌, ◌∷◌, ◌≡◌, ◌≤◌,
}
use postgres_tde.Sql.Text.{digits, decimal, print_int}

-- What a text of digits says, behind a number.
unfoldable pub value_of : List ℕ → ℕ → ℕ
value_of [] n = n
value_of (d ∷ ds) n = value_of ds (n * 10 + (d - 48))

value_of-append :
    (xs : List ℕ) (d n : ℕ) → value_of (xs ++ d ∷ []) n ≡ value_of xs n * 10 + (d - 48)
unfolding value_of
value_of-append [] d n = refl
value_of-append (x ∷ xs) d n = value_of-append xs d (n * 10 + (x - 48))

value_of-digits : (fuel n : ℕ) → n < 10 ^ fuel → value_of (digits fuel n) 0 ≡ n
unfolding value_of digits
value_of-digits zero n h = omega (arith, h)
value_of-digits (suc fuel) n h =
    go (ltb n 10) refl (value_of-digits fuel (n / 10) (omega (arith, h)))
  where
    go :
        (b : Bool)
        → ltb n 10 ≡ b
        → value_of (digits fuel (n / 10)) 0 ≡ n / 10
        → value_of (if b then (48 + n) ∷ [] else digits fuel (n / 10) ++ (48 + n % 10) ∷ []) 0 ≡ n
    go true e ih = omega arith
    go false e ih = value_of-append (digits fuel (n / 10)) (48 + n % 10) 0 ∙ omega (arith, ih)

first_of : List ℕ → ℕ
first_of [] = 48
first_of (d ∷ ds) = d

first_of-append : (xs : List ℕ) (d : ℕ) → 48 ≤ first_of xs → 48 ≤ d → 48 ≤ first_of (xs ++ d ∷ [])
unfolding first_of
first_of-append [] d h k = k
first_of-append (x ∷ xs) d h k = h

first_of-digits : (fuel n : ℕ) → 48 ≤ first_of (digits fuel n)
unfolding first_of digits
first_of-digits zero n = omega arith
first_of-digits (suc fuel) n = go (ltb n 10) (first_of-digits fuel (n / 10))
  where
    go :
        (b : Bool)
        → 48 ≤ first_of (digits fuel (n / 10))
        → 48 ≤ first_of (if b then (48 + n) ∷ [] else digits fuel (n / 10) ++ (48 + n % 10) ∷ [])
    go true ih = omega arith
    go false ih = first_of-append (digits fuel (n / 10)) (48 + n % 10) ih (omega arith)

decimal-injective : (i j : ℕ) → i < 10 ^ 20 → j < 10 ^ 20 → decimal i ≡ decimal j → i ≡ j
decimal-injective i j h k e =
    sym (value_of-digits 20 i h) ∙ ap (λ ds. value_of ds 0) e ∙ value_of-digits 20 j k

not_a_digit : (ds : List ℕ) (n : ℕ) → 45 ∷ ds ≡ decimal n → ⊥
unfolding first_of
not_a_digit ds n e = bad (first_of-digits 20 n) (ap first_of e)
  where
    bad : 48 ≤ first_of (decimal n) → 45 ≡ first_of (decimal n) → ⊥
    bad h k = omega (arith, h, k)

rest_of : List ℕ → List ℕ
rest_of [] = []
rest_of (d ∷ ds) = ds

-- Two integers of at most 20 digits with one text have one sign and one magnitude.
pub print_int-injective :
    (s t : Bool) (i j : ℕ)
    → i < 10 ^ 20
    → j < 10 ^ 20
    → print_int s i ≡ print_int t j
    → (s ≡ t) × (i ≡ j)
unfolding rest_of
print_int-injective true true i j h k e = (refl, decimal-injective i j h k (ap rest_of e))
print_int-injective false false i j h k e = (refl, decimal-injective i j h k e)
print_int-injective true false i j h k e = absurd (not_a_digit (decimal i) j e)
print_int-injective false true i j h k e = absurd (not_a_digit (decimal j) i (sym e))
