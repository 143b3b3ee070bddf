-- ===== src/Buffer.antt =====
-- Envoy's `Buffer::Instance`, which the filter uses and does not implement: an interface. `bytes`
-- is what a buffer holds; the laws are the documented effect of each call on it, for arguments
-- inside the buffer. Nothing is assumed of a call outside it.
use postgres_tde.Base.{
  List, Option, [], arith, drop, from_be, if◌then◌else◌, length, length-drop, none, refl, slice,
  some, suc, take, to_be, ℕ, ◌++◌, ◌+◌, ◌==◌, ◌∷◌, ◌≡◌, ◌≤◌,
}
use mathlib.Core.Option

-- The first position of a byte.
abbrev pub find_index : ℕ → List ℕ → Option ℕ
find_index c [] = none
find_index c (x ∷ xs) = if x == c then some 0 else Option.map suc (find_index c xs)

pub record Buffer : Type 1 where
  pub Buf : Type 0
  pub bytes : Buf → List ℕ
  pub empty : Buf
  pub size : Buf → ℕ
  pub search : ℕ → Buf → ℕ → Option ℕ
  pub peek_be : ℕ → Buf → ℕ → ℕ
  pub copy_out : Buf → ℕ → ℕ → List ℕ
  pub drain : ℕ → Buf → Buf
  pub move_front : ℕ → Buf → Buf × Buf
  pub append : Buf → Buf → Buf
  pub add : List ℕ → Buf → Buf
  pub write_be : ℕ → ℕ → Buf → Buf
  pub bytes-empty : bytes empty ≡ []
  pub size-bytes : (b : Buf) → size b ≡ length (bytes b)
  pub search-bytes :
      (c : ℕ) (b : Buf) (i : ℕ)
      → i ≤ length (bytes b)
      → search c b i ≡ Option.map (λ j. i + j) (find_index c (drop i (bytes b)))
  pub peek_be-bytes :
      (n : ℕ) (b : Buf) (i : ℕ)
      → i + n ≤ length (bytes b)
      → peek_be n b i ≡ from_be (slice i n (bytes b))
  pub copy_out-bytes :
      (b : Buf) (i n : ℕ) → i + n ≤ length (bytes b) → copy_out b i n ≡ slice i n (bytes b)
  pub drain-bytes : (n : ℕ) (b : Buf) → n ≤ length (bytes b) → bytes (drain n b) ≡ drop n (bytes b)
  -- A new buffer that took `n` bytes by `move`, and what is left of the source.
  pub move_front-bytes :
      (n : ℕ) (b : Buf)
      → n ≤ length (bytes b)
      → (bytes (move_front n b).0 ≡ take n (bytes b))
        × (bytes (move_front n b).1 ≡ drop n (bytes b))
  pub move_front-le : (n : ℕ) (b : Buf) → length (bytes (move_front n b).1) ≤ length (bytes b)
  pub append-bytes : (b c : Buf) → bytes (append b c) ≡ bytes b ++ bytes c
  pub add-bytes : (xs : List ℕ) (b : Buf) → bytes (add xs b) ≡ bytes b ++ xs
  pub write_be-bytes : (n v : ℕ) (b : Buf) → bytes (write_be n v b) ≡ bytes b ++ to_be n v

pub length-drop-le : (n : ℕ) (b : List ℕ) → length (drop n b) ≤ length b
length-drop-le n b = omega (arith, length-drop n b)

-- The interface can be met: a buffer that is its contents.
abbrev pub list_buffer : Buffer
list_buffer = record {
  Buf = List ℕ;
  bytes = λ b. b;
  empty = [];
  size = length;
  search = λ c b i. Option.map (λ j. i + j) (find_index c (drop i b));
  peek_be = λ n b i. from_be (slice i n b);
  copy_out = λ b i n. slice i n b;
  drain = drop;
  move_front = λ n b. (take n b, drop n b);
  append = λ b c. b ++ c;
  add = λ xs b. b ++ xs;
  write_be = λ n v b. b ++ to_be n v;
  bytes-empty = refl;
  size-bytes = λ b. refl;
  search-bytes = λ c b i h. refl;
  peek_be-bytes = λ n b i h. refl;
  copy_out-bytes = λ b i n h. refl;
  drain-bytes = λ n b h. refl;
  move_front-bytes = λ n b h. (refl, refl);
  move_front-le = length-drop-le;
  append-bytes = λ b c. refl;
  add-bytes = λ xs b. refl;
  write_be-bytes = λ n v b. refl;
}
