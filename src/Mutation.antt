-- ===== src/Mutation.antt =====
-- What a change of the query, or of a message, ends with.
use postgres_tde.Base.{List, Option, ap, none, refl, some, ℕ, ◌≡◌}

-- A result, an error, or the end of the program.
pub data Mutated (A : Type 0) : Type 0 where
  mutated : A → Mutated A
  refused : List ℕ → Mutated A
  aborted : Mutated A

abbrev pub and_mutate : {A B : Type 0} → Mutated A → (A → Mutated B) → Mutated B
and_mutate (mutated a) next = next a
and_mutate (refused e) next = refused e
and_mutate aborted next = aborted

abbrev pub of_option : {A : Type 0} → Option A → Mutated A
of_option none = aborted
of_option (some a) = mutated a

pub and_mutate-mutated :
    {A B : Type 0} (m : Mutated A) (next : A → Mutated B) (b : B)
    → and_mutate m next ≡ mutated b
    → (a : A) × (m ≡ mutated a) × (next a ≡ mutated b)
and_mutate-mutated (mutated a) next b h = (a, refl, h)
and_mutate-mutated (refused e) next b h = cc
and_mutate-mutated aborted next b h = cc

pub mutated-injective : {A : Type 0} (a b : A) → mutated a ≡ mutated b → a ≡ b
mutated-injective a b h =
    ap (λ (m : Mutated _). elim m [ mutated x ↦ x | refused e ↦ a | aborted ↦ a ]) h

pub of_option-some : {A : Type 0} (o : Option A) (a : A) → of_option o ≡ mutated a → o ≡ some a
of_option-some none a h = cc
of_option-some (some b) a h = ap some (mutated-injective b a h)
