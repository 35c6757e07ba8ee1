-- ===== src/Packet/Inner.antt =====
-- libraries/earendil_packet/src/inner.rs: the payload inside the onion.
use native.Mathlib.Decide.{dec_le}
use earendil.Base.{
  inl, inr, ◌⊎◌, ℕ, ◌-◌, ◌≤◌, ◌<◌, ◌≡◌, ◌++◌, arith, length, take, drop, replicate, length-append,
  length-replicate, take-append, drop-append, if◌then◌else◌, leb, Result, ok, err, ◌>>=◌, ok_or,
}
use earendil.Crypto.{
  Bytes, Primitives, IsLawful, be_bytes, of_be, of_be-be_bytes, length-be_bytes, fingerprint,
  public, fingerprint-lt,
}
use earendil.Packet.Types.{InnerPacket, EncodeError, DecodeError, Codec, IsCodec, body_len}

module _ (prim : Primitives) (codec : Codec) where
  -- The buffer starts as zeros, and what does not fit into it is an error of the coder.
  unfoldable pub encode : InnerPacket → ℕ → Result EncodeError Bytes
  encode self my_isk =
      let packed = codec.serialize self in
      if leb (length packed) (body_len - 20)
      then ok (
          be_bytes 20 (fingerprint prim (public prim my_isk))
          ++ (packed ++ replicate (body_len - 20 - length packed) 0))
      else err EncodeError.bad_packaging

  unfoldable pub decode : Bytes → Result DecodeError (InnerPacket × ℕ)
  decode raw = do
    let src_fp = of_be (take 20 raw)
    msg ← ok_or (codec.deserialize (drop 20 raw)) DecodeError.bad_packaging
    ok (msg, src_fp)

  module _ (lawful : IsLawful prim) (coded : IsCodec codec) where
    -- What was encoded is decoded again, with the fingerprint of the key that encoded it.
    pub decode-encode :
        (p : InnerPacket) (isk : ℕ) {raw : Bytes}
        → encode p isk ≡ ok raw
        → decode raw ≡ ok (p, fingerprint prim (public prim isk))
    unfolding encode decode
    decode-encode p isk h =
        let fp = fingerprint prim (public prim isk) in
        let packed = codec.serialize p in
        let rest = packed ++ replicate (body_len - 20 - length packed) 0 in
        ground (
          arith,
          take-append 20 (be_bytes 20 fp) rest,
          drop-append 20 (be_bytes 20 fp) rest,
          length-be_bytes 20 fp,
          of_be-be_bytes 20 fp,
          fingerprint-lt prim lawful (public prim isk),
          coded.deserialize-serialize p (replicate (body_len - 20 - length packed) 0),
        )

    -- A payload fills the body exactly, and it is refused exactly if it is too long.
    pub encode_lem :
        (p : InnerPacket) (isk : ℕ)
        → ((length (codec.serialize p) ≤ 8172)
            × (raw : Bytes) × (encode p isk ≡ ok raw)
            × (length raw ≡ body_len))
          ⊎ ((8172 < length (codec.serialize p)) × (encode p isk ≡ err EncodeError.bad_packaging))
    unfolding encode
    encode_lem p isk =
        let fp = fingerprint prim (public prim isk) in
        let packed = codec.serialize p in
        let pad = replicate {A = ℕ} (body_len - 20 - length packed) 0 in
        elim (dec_le (length packed) 8172) [
          | yes fits ↦ inl (
            fits,
            be_bytes 20 fp ++ (packed ++ pad),
            ground arith,
            omega (
              arith,
              length-append (be_bytes 20 fp) (packed ++ pad),
              length-append packed pad,
              length-be_bytes 20 fp,
              length-replicate {A = ℕ} (body_len - 20 - length packed) 0,
            ),
          )
          | no big ↦ inr (omega arith, ground arith)
        ]

    -- A payload of at most 8172 encoded bytes is encoded into exactly 8192 bytes, and decoding these
    -- gives it back with the fingerprint of the key that encoded it.
    pub decode-encode_fits :
        (p : InnerPacket) (isk : ℕ)
        → length (codec.serialize p) ≤ 8172
        → (raw : Bytes) × (encode p isk ≡ ok raw)
          × (length raw ≡ body_len)
          × (decode raw ≡ ok (p, fingerprint prim (public prim isk)))
    decode-encode_fits p isk fits = elim (encode_lem p isk) [
      | inl (_, raw, e, size) ↦ (raw, e, size, decode-encode p isk e)
      | inr (big, _) ↦ absurd (omega arith)
    ]
