-- ===== src/Encryption/Aes.antt =====
-- utility_ext_impl.cc: keys, `AESEncrypt`, `AESDecrypt` and SHA-256 digests. A byte string is a list.
use postgres_tde.Base.{
  List, Option, ap, arith, drop, drop-append, false, if◌then◌else◌, length, length-append, ltb,
  map-some, none, some, sym, take, take-append, ℕ, ◌%◌, ◌*◌, ◌++◌, ◌+◌, ◌/◌, ◌∙◌, ◌≡◌, ◌≤◌,
}
use mathlib.Core.Option

abbrev pub aes_256_key_length : ℕ
aes_256_key_length = 32

abbrev pub aes_cbc_iv_length : ℕ
aes_cbc_iv_length = 16

-- The size of a block, which `EVP_CIPHER_block_size` gives for AES.
abbrev pub aes_block_size : ℕ
aes_block_size = 16

-- `max_ciphertext_size` of common/utils/utils.h, for any size of a block.
abbrev pub max_ciphertext_size : ℕ → ℕ → ℕ
max_ciphertext_size plaintext_size block = (plaintext_size + block) / block * block

-- BoringSSL's AES-256-CBC: `EVP_..Init_ex`, `EVP_..Update` and `EVP_..Final_ex`, each with its
-- output, and `none` if it does not return 1.
pub record Evp : Type 1 where
  pub Ctx : Type 0
  pub encrypt_init : List ℕ → List ℕ → Option Ctx
  pub encrypt_update : Ctx → List ℕ → Option (List ℕ × Ctx)
  pub encrypt_final : Ctx → Option (List ℕ)
  pub decrypt_init : List ℕ → List ℕ → Option Ctx
  pub decrypt_update : Ctx → List ℕ → Option (List ℕ × Ctx)
  pub decrypt_final : Ctx → Option (List ℕ)

infixl 5 ◌>>=◌
abbrev pub ◌>>=◌ : {A B : Type 0} → Option A → (A → Option B) → Option B
none >>= f = none
some a >>= f = f a

-- The three calls in a row.
abbrev pub run_cipher :
    {Ctx : Type 0}
    → Option Ctx
    → (Ctx → List ℕ → Option (List ℕ × Ctx))
    → (Ctx → Option (List ℕ))
    → List ℕ
    → Option (List ℕ)
run_cipher init update final bytes_in = do
  ctx ← init
  updated ← update ctx bytes_in
  rest ← final updated.1
  some (updated.0 ++ rest)

module _ (evp : Evp) where
  -- With the initialization vector that `RAND_bytes` gave; `none` where the source ends the
  -- program. Here and below the `ASSERT` on the size of the key, which is compiled into debug builds
  -- only, is left out; `Config.Consistent` has the size of the keys that are configured.
  unfoldable pub aes_encrypt : List ℕ → List ℕ → List ℕ → Option (List ℕ)
  aes_encrypt key iv plain_data =
      Option.map (λ encrypted_data. iv ++ encrypted_data)
        (run_cipher (evp.encrypt_init key iv) evp.encrypt_update evp.encrypt_final plain_data)

  -- `none` is the error "postgres_tde: decryption failed", the only one.
  unfoldable pub aes_decrypt : List ℕ → List ℕ → Option (List ℕ)
  aes_decrypt key cipher_data =
      if ltb (length cipher_data) aes_cbc_iv_length
      then none
      else run_cipher (evp.decrypt_init key (take aes_cbc_iv_length cipher_data)) evp.decrypt_update
          evp.decrypt_final (drop aes_cbc_iv_length cipher_data)

  -- What AES-CBC promises: the calls for decryption, with the same key and vector, undo the calls
  -- for encryption, and these succeed.
  pub record Inverts : Type 0 where
    pub encrypts :
        (key iv plain : List ℕ)
        → (c : List ℕ) × (run_cipher
              (evp.encrypt_init key iv)
              evp.encrypt_update
              evp.encrypt_final
              plain
            ≡ some c)
    pub undoes :
        (key iv plain c : List ℕ)
        → run_cipher (evp.encrypt_init key iv) evp.encrypt_update evp.encrypt_final plain ≡ some c
        → run_cipher (evp.decrypt_init key iv) evp.decrypt_update evp.decrypt_final c ≡ some plain

  -- `AESEncrypt` succeeds, and `AESDecrypt` with the same key gives the text back, for any vector
  -- of 16 bytes.
  pub aes_decrypt-aes_encrypt :
      (inverts : Inverts) (key iv plain : List ℕ)
      → length iv ≡ aes_cbc_iv_length
      → (c : List ℕ) × (aes_encrypt key iv plain ≡ some c) × (aes_decrypt key c ≡ some plain)
  unfolding aes_encrypt aes_decrypt
  aes_decrypt-aes_encrypt inverts key iv plain h =
      let (c, e) = inverts.encrypts key iv plain in
      (
        iv ++ c,
        ap (Option.map (λ encrypted_data. iv ++ encrypted_data)) e,
        rw (enough c, front c, back c) (inverts.undoes key iv plain c e),
      )
    where
      enough : (c : List ℕ) → ltb (length (iv ++ c)) aes_cbc_iv_length ≡ false
      enough c = ground (arith, length-append iv c, h)

      front : (c : List ℕ) → take aes_cbc_iv_length (iv ++ c) ≡ iv
      front c = ap (λ n. take n (iv ++ c)) (sym h) ∙ take-append iv c

      back : (c : List ℕ) → drop aes_cbc_iv_length (iv ++ c) ≡ c
      back c = ap (λ n. drop n (iv ++ c)) (sym h) ∙ drop-append iv c

  -- What padding to whole blocks promises: the output is a number of blocks, and at most one block
  -- longer than the input.
  pub record Pads : Type 0 where
    pub whole_blocks :
        (key iv plain c : List ℕ)
        → run_cipher (evp.encrypt_init key iv) evp.encrypt_update evp.encrypt_final plain ≡ some c
        → length c % aes_block_size ≡ 0
    pub one_block_more :
        (key iv plain c : List ℕ)
        → run_cipher (evp.encrypt_init key iv) evp.encrypt_update evp.encrypt_final plain ≡ some c
        → length c ≤ length plain + aes_block_size

  -- What `AESEncrypt` gives, for a cipher that pads to whole blocks, is at most as long as the
  -- vector and the space that it sets aside, `max_ciphertext_size`: its `ASSERT` holds.
  pub aes_encrypt-fits :
      (key iv plain c : List ℕ)
      → Pads
      → aes_encrypt key iv plain ≡ some c
      → length c ≤ length iv + max_ciphertext_size (length plain) aes_block_size
  unfolding aes_encrypt
  aes_encrypt-fits key iv plain c pads e =
      let (d, run, made) =
        map-some (λ encrypted_data. iv ++ encrypted_data)
          (run_cipher (evp.encrypt_init key iv) evp.encrypt_update evp.encrypt_final plain) c e in
      omega (
        arith,
        ap length made,
        length-append iv d,
        pads.whole_blocks key iv plain d run,
        pads.one_block_more key iv plain d run,
      )

-- `GenerateAESKey`, by what `RAND_bytes` gives for a length; `none` where the source ends the
-- program.
unfoldable pub generate_aes_key : (ℕ → Option (List ℕ)) → Option (List ℕ)
generate_aes_key rand_bytes = rand_bytes aes_256_key_length

-- BoringSSL's SHA-256: `EVP_DigestInit`, `EVP_DigestUpdate` and `EVP_DigestFinal`, each `none` if it
-- does not return 1.
pub record Md : Type 1 where
  pub Ctx : Type 0
  pub digest_init : Option Ctx
  pub digest_update : Ctx → List ℕ → Option Ctx
  pub digest_final : Ctx → Option (List ℕ)

-- `getSha256Digest`; `none` where the source ends the program.
unfoldable pub get_sha256_digest : Md → List ℕ → Option (List ℕ)
get_sha256_digest md data_ = do
  ctx ← md.digest_init
  updated ← md.digest_update ctx data_
  md.digest_final updated
