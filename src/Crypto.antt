-- ===== src/Crypto.antt =====
-- `Encrypt` and `Decrypt` (backend/internal/utils/crypto/crypto.go), and `EncryptedString`
-- (backend/internal/model/types/encrypted_string.go). A Go byte slice or string is its list of bytes.
pub mod Cipher
pub mod Seal
pub mod EncryptedString
mod Tests
