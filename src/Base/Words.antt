-- ===== src/Base/Words.antt =====
-- Machine integers: `uint64_t` arithmetic with its wrap-around, and big-endian byte strings.
use Prim.Native.Nat.{ℕ, zero, suc, ◌+◌, ◌-◌, ◌*◌, ◌/◌, ◌%◌, ◌^◌, ◌≤◌, ◌<◌}
use native.Mathlib.Omega.{arith}
use native.Mathlib.Nat.{pow-suc}
use mathlib.Core.Path.{◌≡◌, refl, ap}
use mathlib.Core.List.{List, [], ◌∷◌, ◌++◌}
use postgres_tde.Base.Lists.{length, length-append}

-- `a + b` and `a - b` on `uint64_t`.
abbrev pub add64 : ℕ → ℕ → ℕ
add64 a b = (a + b) % 2 ^ 64

abbrev pub sub64 : ℕ → ℕ → ℕ
sub64 a b = (a + 2 ^ 64 - b) % 2 ^ 64

-- The number that a big-endian byte string stands for.
unfoldable pub be_value : List ℕ → ℕ → ℕ
be_value [] acc = acc
be_value (b ∷ bs) acc = be_value bs (acc * 256 + b)

abbrev pub from_be : List ℕ → ℕ
from_be bs = be_value bs 0

-- `n` bytes, the most significant first, of the low `8 * n` bits of a number.
unfoldable pub to_be : ℕ → ℕ → List ℕ
to_be zero v = []
to_be (suc n) v = to_be n (v / 256) ++ (v % 256) ∷ []

pub length-to_be : (n v : ℕ) → length (to_be n v) ≡ n
unfolding to_be
length-to_be zero v = refl
length-to_be (suc n) v =
    omega (arith, length-append (to_be n (v / 256)) ((v % 256) ∷ []), length-to_be n (v / 256))

be_value-append :
    (xs : List ℕ) (b acc : ℕ) → be_value (xs ++ b ∷ []) acc ≡ be_value xs acc * 256 + b
unfolding be_value
be_value-append [] b acc = refl
be_value-append (x ∷ xs) b acc = be_value-append xs b (acc * 256 + x)

-- What was written in `n` bytes reads back, if it fits.
pub from_be-to_be : (n v : ℕ) → v < 256 ^ n → from_be (to_be n v) ≡ v
unfolding to_be be_value
from_be-to_be zero v h = omega arith
from_be-to_be (suc n) v h =
    rw (be_value-append (to_be n (v / 256)) (v % 256) 0)
      (omega (arith, from_be-to_be n (v / 256) (omega (arith, pow-suc 256 n))))

pub sub64_of_le : (a b : ℕ) → b ≤ a → a < 2 ^ 64 → sub64 a b ≡ a - b
sub64_of_le a b h k = omega arith

pub add64_of_lt : (a b : ℕ) → a + b < 2 ^ 64 → add64 a b ≡ a + b
add64_of_lt a b h = omega arith

pub to_be_one : (v : ℕ) → v < 256 → to_be 1 v ≡ v ∷ []
unfolding to_be
to_be_one v h = let e : v % 256 ≡ v = omega arith in ap (λ k. k ∷ []) e

pub from_be_one : (c : ℕ) → from_be (c ∷ []) ≡ c
unfolding be_value
from_be_one c = omega arith
