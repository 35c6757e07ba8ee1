-- ===== src/Packet/Crypt.antt =====
-- libraries/earendil_packet/src/crypt.rs: authenticated boxes and the stream cipher.
use earendil.Base.{
  ℕ, ◌+◌, ◌≡◌, refl, ◌++◌, arith, length, take, drop, replicate, length-append, take-append,
  drop-append, if◌then◌else◌, ltb, Result, ok, err, ◌>>=◌, ok_or,
}
use earendil.Crypto.{Bytes, Primitives, IsLawful, be_bytes, of_be, of_be-be_bytes, length-be_bytes}
use earendil.Packet.Types.{AeadError}

-- [0; 12]
unfoldable pub zero_nonce : Bytes
zero_nonce = replicate 12 0

module _ (prim : Primitives) where
  -- OnionSecret::public, OnionSecret::shared_secret
  unfoldable pub onion_public : ℕ → ℕ
  onion_public sk = prim.exchange_public sk

  unfoldable pub shared_secret : ℕ → ℕ → Bytes
  shared_secret sk theirs = prim.diffie_hellman sk theirs

  -- AeadKey::seal and AeadKey::open, the key by its bytes
  unfoldable pub seal : Bytes → Bytes → Bytes → Bytes
  seal key nonce plain = prim.aead_encrypt key nonce plain

  unfoldable pub aead_open : Bytes → Bytes → Bytes → Result AeadError Bytes
  aead_open key nonce ctext = ok_or (prim.aead_decrypt key nonce ctext) AeadError.decryption_failed

  -- `sender_sk` is what `OnionSecret::generate` drew. The message comes out sealed, beside it.
  unfoldable pub box_encrypt : Bytes → ℕ → ℕ → Bytes × ℕ
  unfolding onion_public shared_secret seal
  box_encrypt message recipient_pk sender_sk =
      let sender_pk = onion_public sender_sk in
      let aead_key = prim.hash (shared_secret sender_sk recipient_pk) in
      (be_bytes 32 sender_pk ++ seal aead_key zero_nonce message, sender_sk)

  unfoldable pub box_decrypt : Bytes → ℕ → Result AeadError (Bytes × ℕ)
  unfolding shared_secret aead_open
  box_decrypt encrypted_message recipient_sk =
      if ltb (length encrypted_message) 32 then err AeadError.decryption_failed else do
        let sender_public_key = of_be (take 32 encrypted_message)
        let aead_key = prim.hash (shared_secret recipient_sk sender_public_key)
        plain ← aead_open aead_key zero_nonce (drop 32 encrypted_message)
        ok (plain, sender_public_key)

  unfoldable pub stream_dencrypt : Bytes → Bytes → Bytes → Bytes
  stream_dencrypt key nonce buf = prim.apply_keystream key nonce buf

  -- The secret beside the box is the drawn one.
  pub box_encrypt_secret : (m : Bytes) (pk sk : ℕ) → (box_encrypt m pk sk).1 ≡ sk
  unfolding box_encrypt
  box_encrypt_secret m pk sk = refl

  module _ (lawful : IsLawful prim) where
    pub length-box_encrypt :
        (m : Bytes) (pk sk : ℕ) → length (box_encrypt m pk sk).0 ≡ length m + 48
    unfolding box_encrypt
    length-box_encrypt m pk sk =
        let key = prim.hash (prim.diffie_hellman sk pk) in
        omega (
          arith,
          length-append (be_bytes 32 (prim.exchange_public sk))
              (prim.aead_encrypt key zero_nonce m),
          length-be_bytes 32 (prim.exchange_public sk),
          lawful.length-encrypt key zero_nonce m,
        )

    -- What is boxed for the owner of a secret key opens with it, and names the sender's key.
    pub box_decrypt-box_encrypt :
        (m : Bytes) (sk eph : ℕ)
        → box_decrypt (box_encrypt m (onion_public sk) eph).0 sk ≡ ok (m, onion_public eph)
    unfolding box_encrypt box_decrypt
    box_decrypt-box_encrypt m sk eph =
        let head = be_bytes 32 (prim.exchange_public eph) in
        let key = prim.hash (prim.diffie_hellman eph (prim.exchange_public sk)) in
        let body = prim.aead_encrypt key zero_nonce m in
        ground (
          arith,
          take-append 32 head body,
          drop-append 32 head body,
          length-append head body,
          length-be_bytes 32 (prim.exchange_public eph),
          of_be-be_bytes 32 (prim.exchange_public eph),
          lawful.exchange_public-lt eph,
          lawful.exchange_comm eph sk,
          lawful.decrypt-encrypt key zero_nonce m,
        )

    -- Both ends of a box derive one secret.
    pub shared_secret_comm :
        (a b : ℕ) → shared_secret a (onion_public b) ≡ shared_secret b (onion_public a)
    unfolding shared_secret onion_public
    shared_secret_comm a b = lawful.exchange_comm a b
