-- ===== src/Crypto/Tests.antt =====
-- A cipher that only marks its text, and the witnesses of the theorems on the encryption.
use vocy.Prelude.{ℕ, ◌≡◌, refl, Option, none, some, [], ◌∷◌, length, ok, zero, suc, arith}
use vocy.Crypto.Cipher.{Bytes, Aead, Ciphers, Base64, Random}
use vocy.Crypto.Seal.{encrypt, decrypt, new_aead, decrypt-encrypt}
use vocy.Crypto.EncryptedString.{scan, value, text, bytes, encrypt_with_key, scan-value}

abbrev unmark : Bytes → Option Bytes
unmark [] = none
unmark (mark ∷ b) = some b

abbrev marking : Aead
marking = record {
  nonce_size = 2;
  overhead = 1;
  seal = λ nonce plaintext associated. 7 ∷ plaintext;
  open_sealed = λ nonce sealed associated. unmark sealed;
  open_sealed-seal = λ nonce plaintext associated. refl;
  length-seal = λ nonce plaintext associated. omega arith;
}

abbrev ciphers : Ciphers
ciphers = record { Block = Bytes; new_cipher = λ key. some key; new_gcm = λ block. some marking }

abbrev base64 : Base64
base64 = record {
  encode = λ b. b;
  decode = λ b. some b;
  decode-encode = λ b. refl;
  encode-eq-empty = λ b e. e;
}

abbrev zeros : ℕ → Bytes
zeros zero = []
zeros (suc n) = 0 ∷ zeros n

length-zeros : (n : ℕ) → length (zeros n) ≡ n
length-zeros zero = refl
length-zeros (suc n) = omega (arith, length-zeros n)

some-zeros : (n : ℕ) (b : Bytes) → some (zeros n) ≡ some b → length b ≡ n
some-zeros n b h = ground (arith, length-zeros n)

abbrev random : Random
random = record { read_full = λ n. some (zeros n); length-read_full = some-zeros }

encrypts : encrypt ciphers random [] (5 ∷ 6 ∷ []) [] ≡ ok (0 ∷ 0 ∷ 7 ∷ 5 ∷ 6 ∷ [])
unfolding encrypt new_aead
encrypts = refl

decrypt-encrypt_example : decrypt ciphers [] (0 ∷ 0 ∷ 7 ∷ 5 ∷ 6 ∷ []) [] ≡ ok (5 ∷ 6 ∷ [])
decrypt-encrypt_example =
    decrypt-encrypt ciphers random [] (5 ∷ 6 ∷ []) [] (0 ∷ 0 ∷ 7 ∷ 5 ∷ 6 ∷ []) encrypts

stores : value ciphers base64 random [] (5 ∷ []) ≡ ok (0 ∷ 0 ∷ 7 ∷ 5 ∷ [])
unfolding value encrypt_with_key encrypt new_aead
stores = refl

scan-value_example :
    (scan ciphers base64 [] (text (0 ∷ 0 ∷ 7 ∷ 5 ∷ [])) (1 ∷ []) ≡ (5 ∷ [], none))
    × (scan ciphers base64 [] (bytes (0 ∷ 0 ∷ 7 ∷ 5 ∷ [])) (1 ∷ []) ≡ (5 ∷ [], none))
scan-value_example =
    scan-value ciphers base64 random [] (5 ∷ []) (0 ∷ 0 ∷ 7 ∷ 5 ∷ []) (1 ∷ []) stores
