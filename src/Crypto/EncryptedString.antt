-- ===== src/Crypto/EncryptedString.antt =====
-- `EncryptedString` (backend/internal/model/types/encrypted_string.go).
use mathlib.Core.Path.{subst}
use vocy.Prelude.{
  ℕ, ◌≡◌, ◌≢◌, refl, ap, ◌∙◌, Option, none, some, [], ◌∷◌, Result, ok, err, ◌>>=◌, >>=-eq-ok,
  wrap-eq-ok, ok-injective, wrap, length, length-append, codes, arith,
}
use vocy.Crypto.Cipher.{Bytes, Ciphers, Base64, Random}
use vocy.Crypto.Seal.{CryptoError, encrypt, decrypt, encrypt_parts, decrypt-encrypt}

pub data StringError : Type 0 where
  decode_failed : StringError
  encryption_failed : CryptoError → StringError
  unexpected_type : StringError

-- The value that the database driver hands to `Scan`.
pub data DriverValue : Type 0 where
  nil other : DriverValue
  text bytes : Bytes → DriverValue

-- `encryptedStringAAD`
abbrev pub associated_data : Bytes
associated_data = codes "encrypted_string"

-- `DeriveEncryptedStringKey`; `hkdf` reads from `hkdf.New(sha256.New, master, nil, info)`.
unfoldable pub derive_encrypted_string_key :
    (Bytes → Bytes → ℕ → Option Bytes) → Bytes → Option Bytes
derive_encrypted_string_key hkdf master = hkdf master (codes "vocy/encrypted_string") 32

module _ (ciphers : Ciphers) (base64 : Base64) where
  unfoldable pub decrypt_with_key : Bytes → Bytes → Result StringError Bytes
  decrypt_with_key key encoded = elim (base64.decode encoded) [
    | none ↦ err decode_failed
    | some encrypted ↦ wrap encryption_failed (decrypt ciphers key encrypted associated_data)
  ]

  unfoldable pub encrypt_with_key : Random → Bytes → Bytes → Result StringError Bytes
  encrypt_with_key random key plaintext = do
    encrypted ← wrap encryption_failed (encrypt ciphers random key plaintext associated_data)
    ok (base64.encode encrypted)

  -- `Scan` of a text: the receiver after it, and the error.
  unfoldable pub scan_raw : Bytes → Bytes → Bytes → Bytes × Option StringError
  unfolding decrypt_with_key
  scan_raw key e [] = ([], none)
  scan_raw key e (c ∷ raw) = elim (decrypt_with_key key (c ∷ raw)) [
    | ok decrypted ↦ (decrypted, none)
    | err x ↦ (e, some x)
  ]

  unfoldable pub scan : Bytes → DriverValue → Bytes → Bytes × Option StringError
  unfolding scan_raw
  scan key nil e = ([], none)
  scan key (text v) e = scan_raw key e v
  scan key (bytes v) e = scan_raw key e v
  scan key other e = (e, some unexpected_type)

  -- `Value`.
  unfoldable pub value : Random → Bytes → Bytes → Result StringError Bytes
  unfolding encrypt_with_key
  value random key [] = ok []
  value random key (c ∷ e) = encrypt_with_key random key (c ∷ e)

  module _ (random : Random) (key : Bytes) where
    encrypted-ne-empty :
        (plaintext encrypted : Bytes)
        → encrypt ciphers random key plaintext associated_data ≡ ok encrypted
        → plaintext ≢ []
        → encrypted ≢ []
    encrypted-ne-empty [] encrypted h full empty = full refl
    encrypted-ne-empty (c ∷ p) encrypted h full empty =
        let (aead, nonce, opened, size, sealed) =
          encrypt_parts ciphers random key (c ∷ p) associated_data encrypted h in
        absurd (
          omega (
            arith,
            ap length (sealed ∙ empty),
            length-append nonce (aead.seal nonce (c ∷ p) associated_data),
            aead.length-seal nonce (c ∷ p) associated_data,
          ))

    decrypt_with_key-encode :
        (plaintext encrypted : Bytes)
        → decrypt ciphers key encrypted associated_data ≡ ok plaintext
        → decrypt_with_key key (base64.encode encrypted) ≡ ok plaintext
    unfolding decrypt_with_key
    decrypt_with_key-encode plaintext encrypted h =
        rw (base64.decode-encode encrypted, decrypt_with_key, h)

    decrypt_with_key-encrypt_with_key :
        (plaintext encoded : Bytes)
        → encrypt_with_key random key plaintext ≡ ok encoded
        → decrypt_with_key key encoded ≡ ok plaintext
    unfolding encrypt_with_key
    decrypt_with_key-encrypt_with_key plaintext encoded h =
        let (encrypted, e, same) =
          >>=-eq-ok (wrap encryption_failed (encrypt ciphers random key plaintext associated_data))
            _ h in
        let back =
          decrypt-encrypt ciphers random key plaintext associated_data encrypted
            (wrap-eq-ok encryption_failed _ e) in
        subst (λ x. decrypt_with_key key x ≡ ok plaintext) (ok-injective same)
          (decrypt_with_key-encode plaintext encrypted back)

    encoded-ne-empty :
        (plaintext encoded : Bytes)
        → encrypt_with_key random key plaintext ≡ ok encoded
        → plaintext ≢ []
        → encoded ≢ []
    unfolding encrypt_with_key
    encoded-ne-empty plaintext encoded h full empty =
        let (encrypted, e, same) =
          >>=-eq-ok (wrap encryption_failed (encrypt ciphers random key plaintext associated_data))
            _ h in
        encrypted-ne-empty plaintext encrypted (wrap-eq-ok encryption_failed _ e) full
          (base64.encode-eq-empty encrypted (ok-injective same ∙ empty))

    scan_raw-ok :
        (e plaintext raw : Bytes)
        → raw ≢ []
        → decrypt_with_key key raw ≡ ok plaintext
        → scan_raw key e raw ≡ (plaintext, none)
    unfolding scan_raw
    scan_raw-ok e plaintext [] full h = absurd (full refl)
    scan_raw-ok e plaintext (c ∷ raw) full h = rw (h, scan_raw)

    scan_raw-value :
        (e stored old : Bytes)
        → value random key e ≡ ok stored
        → scan_raw key old stored ≡ (e, none)
    unfolding value scan_raw
    scan_raw-value [] stored old h =
        subst (λ x. scan_raw key old x ≡ ([], none)) (ok-injective h) refl
    scan_raw-value (c ∷ e) stored old h =
        scan_raw-ok old (c ∷ e) stored (encoded-ne-empty (c ∷ e) stored h (λ n. ground arith))
          (decrypt_with_key-encrypt_with_key (c ∷ e) stored h)

    -- What `Value` stores without an error, `Scan` reads back, as a text and as bytes, whatever the
    -- receiver was; the empty string too, which is stored unencrypted.
    pub scan-value :
        (e stored old : Bytes)
        → value random key e ≡ ok stored
        → (scan key (text stored) old ≡ (e, none)) × (scan key (bytes stored) old ≡ (e, none))
    unfolding scan
    scan-value e stored old h = (scan_raw-value e stored old h, scan_raw-value e stored old h)
