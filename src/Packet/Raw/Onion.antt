-- ===== src/Packet/Raw/Onion.antt =====
-- Peeling a built packet, hop after hop, and what arrives.
use earendil.Base.{
  ℕ, suc, ◌^◌, ◌<◌, ◌≡◌, refl, sym, ap, ◌∙◌, List, [], ◌∷◌, ◌++◌, map, arith, length, take, drop,
  replicate, take-append, drop-append, take_of_length-le, Result, ok, err, panic, ◌>>=◌,
}
use earendil.Crypto.{Bytes, Primitives, IsLawful, be_bytes, of_be-be_bytes, length-be_bytes}
use earendil.Packet.Types.{RawHeader, RawPacket, PacketPeelError, PeeledPacket, Codec, outer_len}
use earendil.Packet.Crypt.{
  zero_nonce, onion_public, shared_secret, box_encrypt, stream_dencrypt, box_decrypt-box_encrypt,
  shared_secret_comm,
}
use earendil.Packet.Reply.{degarble_body}
use earendil.Packet.Raw.{
  header_bytes, header_of, body_key, header_key, addressed_to_us, by_metadata, peel,
}
use earendil.Packet.Raw.Layers.{Hop, peeled, hop_secret, Carries}

abbrev pub AreFingerprints : List Hop → Type 0
AreFingerprints [] = Unit {0}
AreFingerprints (hop ∷ hops) = (hop.next < 256 ^ 20) × AreFingerprints hops

abbrev pub secrets : List Hop → List ℕ
secrets = map (λ hop. hop.secret)

abbrev pub nexts : List Hop → List ℕ
nexts = map (λ hop. hop.next)

module _ (prim : Primitives) (codec : Codec) where
  -- Each relay of a route peels, and hands what it got to the next; the destination peels last.
  unfoldable pub peel_along :
      RawPacket → List ℕ → ℕ → Result PacketPeelError (List ℕ × PeeledPacket)
  peel_along pkt [] dest = do last ← peel prim codec pkt dest; ok ([], last)
  peel_along pkt (sk ∷ sks) dest = do
    peeled ← peel prim codec pkt sk
    elim peeled [
      | PeeledPacket.forward to next ↦ do rest ← peel_along next sks dest; ok (to ∷ rest.0, rest.1)
      | other ↦ ok ([], other)
    ]

  -- What the relays' keys make of a body.
  unfoldable pub garble_body : List Bytes → Bytes → Bytes
  garble_body [] raw = raw
  garble_body (shared_sec ∷ secs) raw =
      stream_dencrypt prim (body_key prim codec shared_sec) zero_nonce (garble_body secs raw)

  garble_body-append :
      (xs ys : List Bytes) (raw : Bytes)
      → garble_body (xs ++ ys) raw ≡ garble_body xs (garble_body ys raw)
  unfolding garble_body
  garble_body-append [] ys raw = refl
  garble_body-append (x ∷ xs) ys raw =
      ap (stream_dencrypt prim (body_key prim codec x) zero_nonce) (garble_body-append xs ys raw)

  module _ (lawful : IsLawful prim) where
    -- The two undo one another.
    pub garble_body-degarble_body :
        (secs : List Bytes) (raw : Bytes)
        → garble_body secs (degarble_body prim codec secs raw) ≡ raw
    unfolding garble_body degarble_body stream_dencrypt
    garble_body-degarble_body [] raw = refl
    garble_body-degarble_body (s ∷ secs) raw =
        ap (prim.apply_keystream (body_key prim codec s) zero_nonce) (
          garble_body-degarble_body secs
            (prim.apply_keystream (body_key prim codec s) zero_nonce raw))
        ∙ lawful.keystream_twice (body_key prim codec s) zero_nonce raw

    pub degarble_body-garble_body :
        (secs : List Bytes) (raw : Bytes)
        → degarble_body prim codec secs (garble_body secs raw) ≡ raw
    unfolding garble_body degarble_body stream_dencrypt
    degarble_body-garble_body [] raw = refl
    degarble_body-garble_body (s ∷ secs) raw =
        ap (degarble_body prim codec secs)
          (lawful.keystream_twice (body_key prim codec s) zero_nonce (garble_body secs raw))
        ∙ degarble_body-garble_body secs raw

    -- One layer: the owner of the key reads the metadata in the box.
    peel_box :
        (pkt : RawPacket) (flag : ℕ) (rest : Bytes) (sk eph : ℕ)
        → pkt.header.outer ≡ (box_encrypt prim (flag ∷ rest) (onion_public prim sk) eph).0
        → length rest ≡ 20
        → peel prim codec pkt sk ≡ (
            let s = shared_secret prim eph (onion_public prim sk) in
            by_metadata prim codec
              (flag ∷ rest)
              (stream_dencrypt prim
                (header_key prim codec s)
                zero_nonce
                (pkt.header.inner ++ replicate 69 0))
              (stream_dencrypt prim (body_key prim codec s) zero_nonce pkt.onion_body))
    unfolding peel
    peel_box pkt flag rest sk eph opens size =
        rw
          (
            opens,
            box_decrypt-box_encrypt prim lawful (flag ∷ rest) sk eph,
            size,
            shared_secret_comm prim lawful sk eph,
          )
          refl

    peel_hop :
        (bytes body : Bytes) (fp sk eph : ℕ)
        → take outer_len bytes
          ≡ (box_encrypt prim (1 ∷ be_bytes 20 fp) (onion_public prim sk) eph).0
        → fp < 256 ^ 20
        → peel prim codec (record { header = header_of bytes; onion_body = body }) sk ≡ (
            let s = shared_secret prim eph (onion_public prim sk) in
            ok (
              PeeledPacket.forward fp (record {
                header = header_of (
                    stream_dencrypt prim
                      (header_key prim codec s)
                      zero_nonce
                      (drop outer_len bytes ++ replicate 69 0));
                onion_body = stream_dencrypt prim (body_key prim codec s) zero_nonce body;
              })))
    unfolding header_of by_metadata
    peel_hop bytes body fp sk eph opens h =
        peel_box (record { header = header_of bytes; onion_body = body }) 1 (be_bytes 20 fp) sk eph
          opens (length-be_bytes 20 fp)
        ∙ rw
            (
              take_of_length-le 20 (be_bytes 20 fp) (omega (arith, length-be_bytes 20 fp)),
              of_be-be_bytes 20 fp h,
            )
            refl

module _ (prim : Primitives) (codec : Codec) (lawful : IsLawful prim) (eph : ℕ → ℕ) (dest : ℕ)
    (metadata : Bytes) (size : length metadata ≡ 20) where
  peel_dest :
      (bytes body : Bytes)
      → take outer_len bytes ≡ (box_encrypt prim (0 ∷ metadata) (onion_public prim dest) (eph 0)).0
      → peel prim codec (record { header = header_of bytes; onion_body = body }) dest
        ≡ addressed_to_us prim codec metadata (
            stream_dencrypt prim
              (body_key prim codec (shared_secret prim (eph 0) (onion_public prim dest)))
              zero_nonce
              body)
  unfolding header_of by_metadata
  peel_dest bytes body opens =
      peel_box prim codec lawful (record { header = header_of bytes; onion_body = body }) 0 metadata
        dest (eph 0) opens size

  then_cons :
      (x : ℕ) (xs : List ℕ) (m : Result PacketPeelError PeeledPacket)
      → ◌>>=◌ {B = List ℕ × PeeledPacket}
          (◌>>=◌ {B = List ℕ × PeeledPacket} m (λ last. ok (xs, last)))
          (λ rest. ok (x ∷ rest.0, rest.1))
        ≡ ◌>>=◌ {B = List ℕ × PeeledPacket} m (λ last. ok (x ∷ xs, last))
  then_cons x xs (ok a) = refl
  then_cons x xs (err e) = refl
  then_cons x xs panic = refl

  pub peel_along-Carries :
      (hops : List Hop) (bytes body : Bytes) (secs : List Bytes)
      → AreFingerprints hops
      → Carries prim codec eph dest metadata hops bytes secs
      → peel_along prim codec
          (record { header = header_of bytes; onion_body = body })
          (secrets hops)
          dest
        ≡ (do
          last ← addressed_to_us prim codec metadata (garble_body prim codec secs body)
          ok (nexts hops, last))
  unfolding peel_along garble_body peeled
  peel_along-Carries [] bytes body secs v (opens, s) = rw (peel_dest bytes body opens, s) refl
  peel_along-Carries (hop ∷ hops) bytes body secs v (opens, secs', s, ahead) =
      let n = suc (length hops) in
      let sec = hop_secret prim codec eph dest metadata n hop in
      let body' = stream_dencrypt prim (body_key prim codec sec) zero_nonce body in
      rw
        (
          peel_hop prim codec lawful bytes body hop.next hop.secret (eph n) opens v.0,
          peel_along-Carries hops (peeled prim codec eph dest metadata sec bytes) body' secs' v.1
              ahead,
          s,
          garble_body-append prim codec secs' (sec ∷ []) body,
        )
        (then_cons hop.next (nexts hops) _)

-- A header is the bytes that it is cast to.
header_of-header_bytes : (h : RawHeader) → length h.outer ≡ 69 → header_of (header_bytes h) ≡ h
unfolding header_of header_bytes
header_of-header_bytes h size =
    rw (take-append 69 h.outer h.inner (sym size), drop-append 69 h.outer h.inner (sym size)) refl

-- A header that carries a route's layers takes any body along it: each relay learns the hop behind
-- it and no more, and the destination sees the metadata and the body in all the relays' keys.
pub peel_along-header :
    (prim : Primitives) (codec : Codec) (lawful : IsLawful prim) (eph : ℕ → ℕ) (dest : ℕ)
    (metadata : Bytes) (size : length metadata ≡ 20) (hops : List Hop) (header : RawHeader)
    (secs : List Bytes) (body : Bytes)
    → length header.outer ≡ 69
    → AreFingerprints hops
    → Carries prim codec eph dest metadata hops (header_bytes header) secs
    → peel_along prim codec (record { header = header; onion_body = body }) (secrets hops) dest
      ≡ (do
        last ← addressed_to_us prim codec metadata (garble_body prim codec secs body)
        ok (nexts hops, last))
peel_along-header prim codec lawful eph dest metadata size hops header secs body outer v c =
    rw (← header_of-header_bytes header outer) (
      peel_along-Carries prim codec lawful eph dest metadata size hops (header_bytes header) body
        secs v c)
