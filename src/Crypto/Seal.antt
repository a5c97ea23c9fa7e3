-- ===== src/Crypto/Seal.antt =====
-- `Encrypt` and `Decrypt` (backend/internal/utils/crypto/crypto.go).
use vocy.Prelude.{
  ◌+◌, ◌≡◌, ap, false, Option, none, some, ◌++◌, Result, ok, err, ◌>>=◌, >>=-eq-ok, ok-injective,
  length, length-append, take, drop, take-append, drop-append, ltb, arith, if◌then◌else◌,
}
use vocy.Crypto.Cipher.{Bytes, Aead, Ciphers, Random}

pub data CryptoError : Type 0 where
  no_block_cipher no_aead_cipher no_nonce decrypt_failed : CryptoError

abbrev pub required : {A : Type 0} → CryptoError → Option A → Result CryptoError A
required e none = err e
required e (some a) = ok a

-- `aes.NewCipher` and `cipher.NewGCM`, with which both functions begin.
unfoldable pub new_aead : Ciphers → Bytes → Result CryptoError Aead
new_aead ciphers key = do
  block ← required no_block_cipher (ciphers.new_cipher key)
  required no_aead_cipher (ciphers.new_gcm block)

unfoldable pub encrypt : Ciphers → Random → Bytes → Bytes → Bytes → Result CryptoError Bytes
unfolding new_aead
encrypt ciphers random key plaintext associated = do
  aead ← new_aead ciphers key
  nonce ← required no_nonce (random.read_full aead.nonce_size)
  ok (nonce ++ aead.seal nonce plaintext associated)

-- The end of `Decrypt`, for the cipher.
unfoldable pub open_envelope : Aead → Bytes → Bytes → Result CryptoError Bytes
open_envelope aead ciphertext associated =
    if ltb (length ciphertext) (aead.nonce_size + aead.overhead)
    then err decrypt_failed
    else required decrypt_failed (
        aead.open_sealed (take aead.nonce_size ciphertext) (drop aead.nonce_size ciphertext)
          associated)

unfoldable pub decrypt : Ciphers → Bytes → Bytes → Bytes → Result CryptoError Bytes
unfolding new_aead open_envelope
decrypt ciphers key ciphertext associated = do
  aead ← new_aead ciphers key
  open_envelope aead ciphertext associated

required-eq-ok :
    {A : Type 0} (e : CryptoError) (o : Option A) {a : A} → required e o ≡ ok a → o ≡ some a
required-eq-ok e none h = ground arith
required-eq-ok e (some a) h = ap some (ok-injective h)

pub open_envelope-seal :
    (aead : Aead) (nonce plaintext associated : Bytes)
    → length nonce ≡ aead.nonce_size
    → open_envelope aead (nonce ++ aead.seal nonce plaintext associated) associated ≡ ok plaintext
unfolding open_envelope
open_envelope-seal aead nonce plaintext associated size =
    let sealed = aead.seal nonce plaintext associated in
    let long : ltb (length (nonce ++ sealed)) (aead.nonce_size + aead.overhead) ≡ false =
      ground
        (arith, length-append nonce sealed, aead.length-seal nonce plaintext associated, size) in
    let front : take aead.nonce_size (nonce ++ sealed) ≡ nonce =
      rw (← size) (take-append nonce sealed) in
    let back : drop aead.nonce_size (nonce ++ sealed) ≡ sealed =
      rw (← size) (drop-append nonce sealed) in
    rw (long, front, back, aead.open_sealed-seal nonce plaintext associated)

-- The parts of an encryption that goes through: its cipher, and a nonce of the cipher's size in
-- front of what is sealed.
pub encrypt_parts :
    (ciphers : Ciphers) (random : Random) (key plaintext associated ciphertext : Bytes)
    → encrypt ciphers random key plaintext associated ≡ ok ciphertext
    → (aead : Aead) × (nonce : Bytes) × (new_aead ciphers key ≡ ok aead)
      × (length nonce ≡ aead.nonce_size)
      × (nonce ++ aead.seal nonce plaintext associated ≡ ciphertext)
unfolding encrypt
encrypt_parts ciphers random key plaintext associated ciphertext h =
    let (aead, opened, more) = >>=-eq-ok (new_aead ciphers key) _ h in
    let (nonce, read, sealed) =
      >>=-eq-ok (required no_nonce (random.read_full aead.nonce_size)) _ more in
    (
      aead,
      nonce,
      opened,
      random.length-read_full aead.nonce_size nonce (required-eq-ok no_nonce _ read),
      ok-injective sealed,
    )

-- Whatever `Encrypt` returns without an error, `Decrypt` with the same key and associated data
-- turns back into the plaintext, without an error.
pub decrypt-encrypt :
    (ciphers : Ciphers) (random : Random) (key plaintext associated ciphertext : Bytes)
    → encrypt ciphers random key plaintext associated ≡ ok ciphertext
    → decrypt ciphers key ciphertext associated ≡ ok plaintext
unfolding decrypt
decrypt-encrypt ciphers random key plaintext associated ciphertext h =
    let (aead, nonce, opened, size, sealed) =
      encrypt_parts ciphers random key plaintext associated ciphertext h in
    rw (opened, ← sealed, open_envelope-seal aead nonce plaintext associated size)
