-- ===== src/Packet/Delivery.antt =====
-- What the packet format promises: libraries/earendil_packet/src/raw.rs and reply_block.rs from
-- one end to the other.
use native.Mathlib.Decide.{dec_lt}
use earendil.Base.{
  ℕ, suc, ◌^◌, ◌≤◌, ◌<◌, ◌≡◌, refl, sym, ap, ◌∙◌, ◌⊎◌, inl, inr, true, false, List, [], ◌∷◌, map,
  arith, Bool-cases, length, take, replicate, length-append, length-replicate, take-append,
  take_of_length-le, Result, ok, err, ◌>>=◌,
}
use earendil.Crypto.{
  Bytes, Primitives, IsLawful, be_bytes, of_be, of_be-be_bytes, length-be_bytes, fingerprint,
  public,
}
use earendil.Packet.Types.{
  RawPacket, ForwardInstruction, ReplyBlock, ReplyDegarbler, InnerPacket, PacketConstructError,
  PeeledPacket, Codec, IsCodec,
}
use earendil.Packet.Crypt.{onion_public, box_encrypt, length-box_encrypt}
use earendil.Packet.Inner.{encode, decode-encode, encode_lem}
use earendil.Packet.Reply.{reply_metadata, placeholder, new_block, degarble}
use earendil.Packet.Raw.{
  bytes_beq, new, new_normal, new_reply, addressed_to_us, to_array, last_layer, wrap_layer,
}
use earendil.Packet.Raw.Layers.{Hop}
use earendil.Packet.Raw.Build.{instruct, built}
use earendil.Packet.Raw.Onion.{
  AreFingerprints, secrets, nexts, peel_along, garble_body, garble_body-degarble_body,
  degarble_body-garble_body, peel_along-header,
}

-- A payload that is encoded.
encoded_fits :
    (prim : Primitives) (codec : Codec) (lawful : IsLawful prim) (coded : IsCodec codec)
    (payload : InnerPacket) (isk : ℕ)
    → length (codec.serialize payload) ≤ 8172
    → (raw : Bytes) × (encode prim codec payload isk ≡ ok raw)
encoded_fits prim codec lawful coded payload isk fits =
    elim (encode_lem prim codec lawful coded payload isk) [
      | inl (_, raw, e, _) ↦ (raw, e)
      | inr (big, _) ↦ absurd (omega arith)
    ]

module _ (prim : Primitives) (codec : Codec) (lawful : IsLawful prim) (coded : IsCodec codec)
    (hops : List Hop) (few : length hops < 10) (named : AreFingerprints hops) (eph : ℕ → ℕ)
    (garbage : Bytes) (noise : length garbage ≡ 621) where
  -- A packet built for up to nine hops is peeled by each relay with its own key, which learns the
  -- next hop, and by the destination, which receives the payload and its sender's fingerprint.
  pub peel_along-new_normal :
      (dest : ℕ) (payload : InnerPacket) (isk : ℕ)
      → length (codec.serialize payload) ≤ 8172
      → (pkt : RawPacket) × (new_normal prim codec
            (map (instruct prim codec) hops)
            (onion_public prim dest)
            payload
            isk
            eph
            garbage
          ≡ ok pkt)
        × (peel_along prim codec pkt (secrets hops) dest
            ≡ ok (nexts hops, PeeledPacket.received (fingerprint prim (public prim isk)) payload))
  unfolding new_normal addressed_to_us bytes_beq replicate take
  peel_along-new_normal dest payload isk fits =
      let (raw, e) = encoded_fits prim codec lawful coded payload isk fits in
      let (pkt, secs, made, b) =
        built prim codec lawful eph dest (replicate 20 0) payload isk garbage raw
          (length-replicate {A = ℕ} 20 0) noise e hops few in
      let whole : garble_body prim codec secs pkt.onion_body ≡ raw =
        ap (garble_body prim codec secs) b.body
        ∙ garble_body-degarble_body prim codec lawful secs raw in
      (
        pkt,
        rw made refl,
        peel_along-header prim codec lawful eph dest (replicate 20 0)
              (length-replicate {A = ℕ} 20 0) hops pkt.header secs pkt.onion_body b.outer_size named
              b.carries
            ∙ rw (whole, decode-encode prim codec lawful coded payload isk e) refl,
      )

bytes_beq-eq : (xs ys : Bytes) → bytes_beq xs ys ≡ true → xs ≡ ys
unfolding bytes_beq
bytes_beq-eq [] [] h = refl
bytes_beq-eq (x ∷ xs) (y ∷ ys) h = ground (arith, bytes_beq-eq xs ys)
bytes_beq-eq (x ∷ xs) [] h = cc
bytes_beq-eq [] (y ∷ ys) h = cc

length-reply_metadata :
    (prim : Primitives) (codec : Codec) (id : ℕ) → length (reply_metadata prim codec id) ≡ 20
unfolding reply_metadata
length-reply_metadata prim codec id = omega (
  arith,
  length-append (be_bytes 8 id) (replicate 12 0),
  length-be_bytes 8 id,
  length-replicate {A = ℕ} 12 0,
)

of_be-reply_metadata :
    (prim : Primitives) (codec : Codec) (id : ℕ)
    → id < 256 ^ 8
    → of_be (take 8 (reply_metadata prim codec id)) ≡ id
unfolding reply_metadata
of_be-reply_metadata prim codec id h =
    rw (take-append 8 (be_bytes 8 id) (replicate 12 0) (sym (length-be_bytes 8 id)))
      (of_be-be_bytes 8 id h)

of_be-zeros : of_be (take 8 (replicate 20 0)) ≡ 0
unfolding of_be take replicate
of_be-zeros = refl

-- The metadata of a reply block tells it from a plain packet, unless its identifier is 0.
reply_metadata-nonzero :
    (prim : Primitives) (codec : Codec) (id : ℕ)
    → 0 < id
    → id < 256 ^ 8
    → bytes_beq (take 20 (reply_metadata prim codec id)) (replicate 20 0) ≡ false
reply_metadata-nonzero prim codec id pos small =
    elim (Bool-cases (bytes_beq (take 20 (reply_metadata prim codec id)) (replicate 20 0))) [
      | inl zeros ↦ absurd (
          let m = reply_metadata prim codec id in
          let whole = take_of_length-le 20 m (omega (arith, length-reply_metadata prim codec id)) in
          let e : m ≡ replicate 20 0 =
            sym whole ∙ bytes_beq-eq (take 20 m) (replicate 20 0) zeros in
          omega (
            arith,
            of_be-reply_metadata prim codec id small,
            ap (λ t. of_be (take 8 t)) e,
            of_be-zeros,
          ))
      | inr other ↦ other
    ]

module _ (prim : Primitives) (codec : Codec) (lawful : IsLawful prim) (coded : IsCodec codec)
    (hops : List Hop) (few : length hops < 10) (named : AreFingerprints hops) (eph : ℕ → ℕ)
    (garbage : Bytes) (noise : length garbage ≡ 621) where
  -- A reply block is made for up to nine hops. A reply sent with it comes, peeled by each relay, to
  -- the block's maker under the block's identifier, and the maker's degarbler recovers the payload
  -- and the fingerprint of its sender.
  pub degarble-new_reply :
      (dest anon_osk anon_isk id : ℕ)
      → 0 < id
      → id < 256 ^ 8
      → length (codec.serialize (placeholder prim codec)) ≤ 8172
      → (payload : InnerPacket) (isk : ℕ) → length (codec.serialize payload) ≤ 8172
      → (block : ReplyBlock) × (degarbler : ReplyDegarbler) × (pkt : RawPacket) × (body : Bytes)
        × (new_block prim codec
              (map (instruct prim codec) hops)
              (onion_public prim dest)
              anon_osk
              anon_isk
              id
              eph
              garbage
            ≡ ok (block, (id, degarbler)))
        × (new_reply prim codec block payload isk ≡ ok pkt)
        × (peel_along prim codec pkt (secrets hops) dest
            ≡ ok (nexts hops, PeeledPacket.garbled_reply id body))
        × (degarble prim codec degarbler body ≡ ok (payload, fingerprint prim (public prim isk)))
  unfolding new_block new_reply addressed_to_us degarble
  degarble-new_reply dest anon_osk anon_isk id pos small room payload isk fits =
      let metadata = reply_metadata prim codec id in
      let size = length-reply_metadata prim codec id in
      let (held, h) = encoded_fits prim codec lawful coded (placeholder prim codec) anon_isk room in
      let (raw, e) = encoded_fits prim codec lawful coded payload isk fits in
      let (pkt, secs, made, b) =
        built prim codec lawful eph dest metadata (placeholder prim codec) anon_isk garbage held
          size noise h hops few in
      (
        record { header = pkt.header; e2e_dest = onion_public prim anon_osk },
        record { shared_secs = secs; my_anon_osk = anon_osk; my_anon_isk = anon_isk },
        record { header = pkt.header; onion_body = raw },
        garble_body prim codec secs raw,
        rw made refl,
        rw e refl,
        peel_along-header prim codec lawful eph dest metadata size hops pkt.header secs raw
              b.outer_size named b.carries
            ∙ rw
                (
                  reply_metadata-nonzero prim codec id pos small,
                  of_be-reply_metadata prim codec id small,
                )
                refl,
        rw (degarble_body-garble_body prim codec lawful secs raw)
            (decode-encode prim codec lawful coded payload isk e),
      )

then_ok :
    {E : Type 0} {A B : Type 0} {m : Result E A} (f : A → B) {a : A}
    → m ≡ ok a
    → (b : B) × ((m >>= λ x. ok (f x)) ≡ ok b)
then_ok f {a} e = (f a, rw e refl)

-- An array of bytes of the right size.
to_array_lem : {E : Type 0} (n : ℕ) (bs : Bytes) → length bs ≡ n → to_array {E = E} n bs ≡ ok bs
unfolding to_array
to_array_lem n bs h = ground arith

module _ (prim : Primitives) (codec : Codec) (lawful : IsLawful prim) (coded : IsCodec codec)
    (metadata : Bytes) (size : length metadata ≡ 20) (payload : InnerPacket) (isk : ℕ) (eph : ℕ → ℕ)
    (garbage : Bytes) (dest : ℕ) where
  abbrev attempt : List ForwardInstruction → Result PacketConstructError (RawPacket × List Bytes)
  attempt route = new prim codec route dest payload metadata isk eph garbage

  wrap_layer_total :
      (i : ForwardInstruction) (e : ℕ) (next : RawPacket × List Bytes)
      → (r : RawPacket × List Bytes) × (wrap_layer prim codec i e next ≡ ok r)
  unfolding wrap_layer
  wrap_layer_total i e (next, secs) = then_ok _ (
      to_array_lem 69 (box_encrypt prim (1 ∷ be_bytes 20 i.next_fingerprint) i.this_pubkey e).0 (
        omega (
          arith,
          length-box_encrypt prim lawful (1 ∷ be_bytes 20 i.next_fingerprint) i.this_pubkey e,
          length-be_bytes 20 i.next_fingerprint,
        )))

  last_layer_total :
      {raw : Bytes}
      → encode prim codec payload isk ≡ ok raw
      → (r : RawPacket × List Bytes) × (attempt [] ≡ ok r)
  unfolding new last_layer
  last_layer_total e = rw e (
      then_ok _ (
        to_array_lem 69 (box_encrypt prim (0 ∷ metadata) dest (eph 0)).0
          (omega (arith, length-box_encrypt prim lawful (0 ∷ metadata) dest (eph 0)))))

  -- Whatever the keys, `new` refuses routes of ten hops and more, then payloads that do not fit
  -- into the body, and in every other case returns a packet: it never panics.
  pub new_outcome :
      (route : List ForwardInstruction)
      → ((10 ≤ length route) × (attempt route ≡ err PacketConstructError.too_many_hops))
        ⊎ ((length route < 10)
            × (8172 < length (codec.serialize payload))
            × (attempt route ≡ err PacketConstructError.message_too_big))
        ⊎ ((length route < 10)
            × (length (codec.serialize payload) ≤ 8172)
            × (r : RawPacket × List Bytes) × (attempt route ≡ ok r))
  unfolding new last_layer
  new_outcome [] = elim (encode_lem prim codec lawful coded payload isk) [
    | inl (fits, raw, e, _) ↦
        let (r, e') = last_layer_total e in inr (inr (omega arith, fits, r, e'))
    | inr (big, e) ↦ inr (inl (omega arith, big, rw e refl))
  ]
  new_outcome (i ∷ route) = elim (dec_lt (length route) 9) [
    | no long ↦ inl (omega arith, ground arith)
    | yes short ↦ elim (new_outcome route) [
      | inl (long, _) ↦ absurd (omega arith)
      | inr (inl (_, big, e)) ↦ inr (inl (omega arith, big, ground (arith, e)))
      | inr (inr (_, fits, r, e)) ↦
          let (r', e') = wrap_layer_total i (eph (suc (length route))) r in
          inr (inr (omega arith, fits, r', ground (arith, e, e')))
    ]
  ]
