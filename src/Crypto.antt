-- ===== src/Crypto.antt =====
-- libraries/earendil_crypt/src/lib.rs over the crates that do the cryptography.
pub mod Encoding
unfoldable pub use Encoding.*
use earendil.Base.{
  ℕ, ◌+◌, ◌^◌, ◌<◌, ◌≡◌, Bool, true, false, Option, none, some, length, take, length-take, arith,
  if◌then◌else◌, nat_beq, not, Result, ok, err,
}

-- What blake3, ed25519-consensus, x25519-dalek, chacha20 and chacha20poly1305 provide. Keys are
-- numbers, see `Encoding`; a secret of X25519 is named by a number too.
pub record Primitives : Type 0 where
  pub hash : Bytes → Bytes
  pub keyed_hash : Bytes → Bytes → Bytes
  pub signing_public : ℕ → ℕ
  pub signing_sign : ℕ → Bytes → Bytes
  pub is_point : ℕ → Bool
  pub signature_matches : ℕ → Bytes → Bytes → Bool
  pub exchange_public : ℕ → ℕ
  pub diffie_hellman : ℕ → ℕ → Bytes
  pub aead_encrypt : Bytes → Bytes → Bytes → Bytes
  pub aead_decrypt : Bytes → Bytes → Bytes → Option Bytes
  pub apply_keystream : Bytes → Bytes → Bytes → Bytes

-- Documented behaviour of those crates: what is signed verifies, both sides of an exchange share
-- the secret, what is sealed opens and is 16 bytes longer, and a stream cipher combines each byte
-- with its own byte of the key stream, twice with no effect.
pub record IsLawful (prim : Primitives) : Type 0 where
  pub length-keyed_hash : (k m : Bytes) → length (prim.keyed_hash k m) ≡ 32
  pub keyed_hash-IsBytes : (k m : Bytes) → IsBytes (prim.keyed_hash k m)
  pub is_point-public : (sk : ℕ) → prim.is_point (prim.signing_public sk) ≡ true
  pub length-sign : (sk : ℕ) (m : Bytes) → length (prim.signing_sign sk m) ≡ 64
  pub matches-sign :
      (sk : ℕ) (m : Bytes)
      → prim.signature_matches (prim.signing_public sk) m (prim.signing_sign sk m) ≡ true
  pub exchange_public-lt : (sk : ℕ) → prim.exchange_public sk < 256 ^ 32
  pub exchange_comm :
      (a b : ℕ)
      → prim.diffie_hellman a (prim.exchange_public b)
        ≡ prim.diffie_hellman b (prim.exchange_public a)
  pub length-encrypt : (k n p : Bytes) → length (prim.aead_encrypt k n p) ≡ length p + 16
  pub decrypt-encrypt : (k n p : Bytes) → prim.aead_decrypt k n (prim.aead_encrypt k n p) ≡ some p
  pub length-keystream : (k n p : Bytes) → length (prim.apply_keystream k n p) ≡ length p
  pub keystream_twice : (k n p : Bytes) → prim.apply_keystream k n (prim.apply_keystream k n p) ≡ p
  pub take-keystream :
      (i : ℕ) (k n p : Bytes)
      → take i (prim.apply_keystream k n p) ≡ prim.apply_keystream k n (take i p)

pub data VerifyError : Type 0 where
  signature_corrupt signature_mismatch : VerifyError

module _ (prim : Primitives) where
  -- IdentityPublic::verify
  unfoldable pub verify : ℕ → Bytes → Bytes → Result VerifyError (Unit {0})
  verify pk msg sig =
      if not (prim.is_point pk)
      then err signature_corrupt
      else if not (nat_beq (length sig) 64)
      then err signature_corrupt
      else if prim.signature_matches pk msg sig
      then ok tt
      else err signature_mismatch

  -- IdentityPublic::fingerprint
  unfoldable pub fingerprint : ℕ → ℕ
  fingerprint pk =
      of_be (take 20 (prim.keyed_hash (ascii "fingerprint_____________________") (be_bytes 32 pk)))

  -- IdentitySecret::public
  unfoldable pub public : ℕ → ℕ
  public sk = prim.signing_public sk

  -- IdentitySecret::sign
  unfoldable pub sign : ℕ → Bytes → Bytes
  sign sk msg = prim.signing_sign sk msg

module _ (prim : Primitives) (lawful : IsLawful prim) where
  pub fingerprint-lt : (pk : ℕ) → fingerprint prim pk < 256 ^ 20
  unfolding fingerprint
  fingerprint-lt pk =
      let label = ascii "fingerprint_____________________" in
      let h = prim.keyed_hash label (be_bytes 32 pk) in
      of_be-lt 20 (take 20 h)
        (omega (arith, length-take 20 h, lawful.length-keyed_hash label (be_bytes 32 pk)))
        (IsBytes-take 20 h (lawful.keyed_hash-IsBytes label (be_bytes 32 pk)))

  -- What a secret key signs verifies under its public key.
  pub verify-sign : (sk : ℕ) (m : Bytes) → verify prim (public prim sk) m (sign prim sk m) ≡ ok tt
  unfolding verify public sign
  verify-sign sk m =
      rw (lawful.is_point-public sk, lawful.length-sign sk m, lawful.matches-sign sk m)
