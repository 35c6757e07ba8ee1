-- ===== src/Tests/Onions.antt =====
-- Packets and reply blocks with the toy ciphers and coder.
use earendil.Base.{
  ℕ, ◌+◌, ◌≤◌, ◌<◌, ◌≡◌, ◌⊎◌, List, [], ◌∷◌, map, arith, length, replicate, length-replicate, ok,
  err,
}
use earendil.Crypto.{Bytes, fingerprint, public}
use earendil.Packet.Types.{
  RawPacket, ReplyBlock, ReplyDegarbler, InnerPacket, ForwardInstruction, PeeledPacket,
  PacketConstructError,
}
use earendil.Packet.Types
use earendil.Packet.Crypt.{onion_public}
use earendil.Packet.Inner.{encode, decode, decode-encode_fits, encode_lem}
use earendil.Packet.Raw.{new, new_normal, new_reply}
use earendil.Packet.Raw.Layers.{Hop}
use earendil.Packet.Raw.Build.{instruct}
use earendil.Packet.Raw.Onion.{secrets, nexts, peel_along}
use earendil.Packet.Reply.{new_block, degarble}
use earendil.Packet.Delivery.{peel_along-new_normal, degarble-new_reply, new_outcome}
use earendil.Tests.Ciphers.{ciphers, ciphers-IsLawful}
use earendil.Tests.Coder.{coder, coder-IsCodec}

abbrev relays : List Hop
relays = record { secret = 5; next = 77 } ∷ record { secret = 6; next = 88 } ∷ []

abbrev greeting : InnerPacket
greeting =
    InnerPacket.message (record { source_dock = 1; dest_dock = 2; body = (104 ∷ 105 ∷ []) ∷ [] })

abbrev draws : ℕ → ℕ
draws n = 40 + n

abbrev noise : Bytes
noise = replicate 621 9

encode_lem_example :
    ((length (coder.serialize greeting) ≤ 8172)
      × (raw : Bytes) × (encode ciphers coder greeting 3 ≡ ok raw)
      × (length raw ≡ 8192))
    ⊎ ((8172 < length (coder.serialize greeting))
        × (encode ciphers coder greeting 3 ≡ err Types.EncodeError.bad_packaging))
encode_lem_example = encode_lem ciphers coder ciphers-IsLawful coder-IsCodec greeting 3

peel_along-new_normal_example :
    (pkt : RawPacket) × (new_normal ciphers coder
        (map (instruct ciphers coder) relays)
        (onion_public ciphers 7)
        greeting
        3
        draws
        noise
      ≡ ok pkt)
    × (peel_along ciphers coder pkt (secrets relays) 7
        ≡ ok
            (nexts relays, PeeledPacket.received (fingerprint ciphers (public ciphers 3)) greeting))
peel_along-new_normal_example =
    peel_along-new_normal ciphers coder ciphers-IsLawful coder-IsCodec relays (omega arith)
      (omega arith, (omega arith, tt)) draws noise (length-replicate {A = ℕ} 621 9) 7 greeting 3
      (omega arith)

degarble-new_reply_example :
    (block : ReplyBlock) × (degarbler : ReplyDegarbler) × (pkt : RawPacket) × (body : Bytes)
    × (new_block ciphers coder
          (map (instruct ciphers coder) relays)
          (onion_public ciphers 7)
          8
          9
          12
          draws
          noise
        ≡ ok (block, (12, degarbler)))
    × (new_reply ciphers coder block greeting 3 ≡ ok pkt)
    × (peel_along ciphers coder pkt (secrets relays) 7
        ≡ ok (nexts relays, PeeledPacket.garbled_reply 12 body))
    × (degarble ciphers coder degarbler body
        ≡ ok (greeting, fingerprint ciphers (public ciphers 3)))
degarble-new_reply_example =
    degarble-new_reply ciphers coder ciphers-IsLawful coder-IsCodec relays (omega arith)
      (omega arith, (omega arith, tt)) draws noise (length-replicate {A = ℕ} 621 9) 7 8 9 12
      (omega arith) (omega arith) (omega arith) greeting 3 (omega arith)

new_outcome_example :
    ((10 ≤ length (map (instruct ciphers coder) relays))
      × (new ciphers coder
            (map (instruct ciphers coder) relays)
            7
            greeting
            (replicate 20 0)
            3
            draws
            noise
          ≡ err PacketConstructError.too_many_hops))
    ⊎ ((length (map (instruct ciphers coder) relays) < 10)
        × (8172 < length (coder.serialize greeting))
        × (new ciphers coder
              (map (instruct ciphers coder) relays)
              7
              greeting
              (replicate 20 0)
              3
              draws
              noise
            ≡ err PacketConstructError.message_too_big))
    ⊎ ((length (map (instruct ciphers coder) relays) < 10)
        × (length (coder.serialize greeting) ≤ 8172)
        × (r : RawPacket × List Bytes) × (new ciphers coder
              (map (instruct ciphers coder) relays)
              7
              greeting
              (replicate 20 0)
              3
              draws
              noise
            ≡ ok r))
new_outcome_example =
    new_outcome ciphers coder ciphers-IsLawful coder-IsCodec (replicate 20 0)
      (length-replicate {A = ℕ} 20 0) greeting 3 draws noise 7 (map (instruct ciphers coder) relays)

decode-encode_fits_example :
    (raw : Bytes) × (encode ciphers coder greeting 3 ≡ ok raw)
    × (length raw ≡ 8192)
    × (decode ciphers coder raw ≡ ok (greeting, fingerprint ciphers (public ciphers 3)))
decode-encode_fits_example =
    decode-encode_fits ciphers coder ciphers-IsLawful coder-IsCodec greeting 3 (omega arith)
