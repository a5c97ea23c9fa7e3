-- ===== src/Crypto/Cipher.antt =====
-- What the encryption relies on in the packages crypto/aes, crypto/cipher, encoding/base64 and
-- golang.org/x/crypto/hkdf.
use vocy.Prelude.{ℕ, ◌+◌, ◌≡◌, Option, some, List, [], length}

abbrev pub Bytes : Type 0
Bytes = List ℕ

-- `cipher.AEAD`: `seal nonce plaintext associated` is what `Seal` appends to its first argument,
-- `open` is `Open`, `none` for an error.
pub record Aead : Type 0 where
  pub nonce_size : ℕ
  pub overhead : ℕ
  pub seal : Bytes → Bytes → Bytes → Bytes
  pub open_sealed : Bytes → Bytes → Bytes → Option Bytes
  pub open_sealed-seal :
      (nonce plaintext associated : Bytes)
      → open_sealed nonce (seal nonce plaintext associated) associated ≡ some plaintext
  pub length-seal :
      (nonce plaintext associated : Bytes)
      → length (seal nonce plaintext associated) ≡ length plaintext + overhead

-- `aes.NewCipher` and `cipher.NewGCM`, `none` for an error.
pub record Ciphers : Type 1 where
  pub Block : Type 0
  pub new_cipher : Bytes → Option Block
  pub new_gcm : Block → Option Aead

-- `base64.StdEncoding`.
pub record Base64 : Type 0 where
  pub encode : Bytes → Bytes
  pub decode : Bytes → Option Bytes
  pub decode-encode : (b : Bytes) → decode (encode b) ≡ some b
  pub encode-eq-empty : (b : Bytes) → encode b ≡ [] → b ≡ []

-- `io.ReadFull(rand.Reader, ...)` for a number of bytes: what it reads, `none` for an error.
pub record Random : Type 0 where
  pub read_full : ℕ → Option Bytes
  pub length-read_full : (n : ℕ) (b : Bytes) → read_full n ≡ some b → length b ≡ n
