-- ===== src/Tests/Connections.antt =====
-- Two packets over a link whose other end has room for one.
use earendil.Base.{
  ℕ, ◌≡◌, refl, sym, ap, ◌∙◌, none, some, List, [], ◌∷◌, ◌++◌, arith, length, length-append,
  replicate, length-replicate, take, drop, take-append, drop-append, nat_beq, if◌then◌else◌, true,
}
use earendil.Crypto.{Bytes}
use earendil.Packet.Types.{RawPacket}
use earendil.Links.Connection.{
  PacketBytes, IsPacketBytes, IsSized, ups, dns, fitting, dropped_at, link_carries,
}
use earendil.Tests.Worlds.{channel, channel-IsChannel}

-- The arrays one after the other.
abbrev joined : RawPacket → Bytes
joined pkt = pkt.header.outer ++ (pkt.header.inner ++ pkt.onion_body)

abbrev cut : Bytes → RawPacket
cut bytes = record {
  header = record { outer = take 69 bytes; inner = take 621 (drop 69 bytes) };
  onion_body = drop 621 (drop 69 bytes);
}

abbrev in_place : PacketBytes
in_place = record {
  bytes_of = joined;
  try_from_bytes = λ bytes. if nat_beq (length bytes) 8882 then some (cut bytes) else none;
}

cut-joined : (pkt : RawPacket) → IsSized pkt → cut (joined pkt) ≡ pkt
cut-joined pkt z =
    let tail = pkt.header.inner ++ pkt.onion_body in
    let outer = take-append 69 pkt.header.outer tail (sym z.outer_size) in
    let rest = drop-append 69 pkt.header.outer tail (sym z.outer_size) in
    let inner =
      ap (take 621) rest ∙ take-append 621 pkt.header.inner pkt.onion_body (sym z.inner_size) in
    let body =
      ap (drop 621) rest ∙ drop-append 621 pkt.header.inner pkt.onion_body (sym z.inner_size) in
    λ i. record { header = record { outer = outer i; inner = inner i }; onion_body = body i }

in_place-IsPacketBytes : IsPacketBytes in_place
in_place-IsPacketBytes = record {
  try_from_bytes-bytes_of = λ pkt z.
      let long : nat_beq (length (joined pkt)) 8882 ≡ true = ground (
        arith,
        z.outer_size,
        z.inner_size,
        z.body_size,
        length-append pkt.header.outer (pkt.header.inner ++ pkt.onion_body),
        length-append pkt.header.inner pkt.onion_body,
      ) in
      rw long (ap some (cut-joined pkt z));
}

abbrev filled : ℕ → RawPacket
filled b = record {
  header = record { outer = replicate 69 b; inner = replicate 621 b };
  onion_body = replicate 8192 b;
}

filled-IsSized : (b : ℕ) → IsSized (filled b)
filled-IsSized b = record {
  outer_size = length-replicate 69 b;
  inner_size = length-replicate 621 b;
  body_size = length-replicate 8192 b;
}

abbrev two_packets : List RawPacket
two_packets = filled 1 ∷ filled 2 ∷ []

link_carries_example :
    let c = channel RawPacket in
    let done = dns in_place c (ups in_place c 2 (100, two_packets)) (1, []) in
    let k = fitting in_place c two_packets (1, []) in
    (c.pending done.1 ≡ take k two_packets) × (done.0 ≡ dropped_at k 2)
link_carries_example =
    link_carries in_place (channel RawPacket) in_place-IsPacketBytes (channel-IsChannel RawPacket)
      two_packets (100, two_packets) (1, []) (filled-IsSized 1, (filled-IsSized 2, tt)) refl
