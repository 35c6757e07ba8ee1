-- ===== src/Packet/Raw.antt =====
-- libraries/earendil_packet/src/raw.rs: building an onion and peeling a layer off it.
pub mod Layers
pub mod Build
pub mod Onion
use earendil.Base.{
  ℕ, suc, ◌-◌, Bool, true, false, not, ◌&&◌, List, [], ◌∷◌, ◌++◌, length, take, drop, replicate,
  if◌then◌else◌, leb, nat_beq, Result, ok, err, panic, ◌>>=◌, map_err,
}
use earendil.Crypto.{Bytes, Primitives, be_bytes, of_be, ascii}
use earendil.Packet.Types.{
  RawHeader, RawPacket, ForwardInstruction, ReplyBlock, InnerPacket, PacketConstructError,
  PacketPeelError, PeeledPacket, Codec, outer_len, inner_len, header_len,
}
use earendil.Packet.Types
use earendil.Packet.Crypt.{zero_nonce, shared_secret, box_encrypt, box_decrypt, stream_dencrypt}
use earendil.Packet.Inner.{encode, decode}

-- `try_into().unwrap()` of a vector into an array of n bytes.
unfoldable pub to_array : {E : Type 0} → ℕ → Bytes → Result E Bytes
to_array n bs = if nat_beq (length bs) n then ok bs else panic

-- bytemuck::cast between a header and its 690 bytes
unfoldable pub header_bytes : RawHeader → Bytes
header_bytes h = h.outer ++ h.inner

unfoldable pub header_of : Bytes → RawHeader
header_of bs = record { outer = take outer_len bs; inner = drop outer_len bs }

unfoldable pub bytes_beq : Bytes → Bytes → Bool
bytes_beq [] [] = true
bytes_beq (x ∷ xs) (y ∷ ys) = nat_beq x y && bytes_beq xs ys
bytes_beq _ _ = false

module _ (prim : Primitives) (codec : Codec) where
  unfoldable pub body_key : Bytes → Bytes
  body_key shared_sec = prim.keyed_hash (ascii "body____________________________") shared_sec

  unfoldable pub header_key : Bytes → Bytes
  header_key shared_sec = prim.keyed_hash (ascii "header__________________________") shared_sec

  -- The base case of `RawPacket::new`. `eph` is the drawn secret of the box, and `garbage` what
  -- `fill_bytes` drew.
  unfoldable pub last_layer :
      ℕ → InnerPacket → Bytes → ℕ → ℕ → Bytes → Result PacketConstructError (RawPacket × List Bytes)
  unfolding body_key
  last_layer destination payload metadata my_isk eph garbage = do
    sealed_payload ←
        map_err (λ _. PacketConstructError.message_too_big) (encode prim codec payload my_isk)
    let boxed = box_encrypt prim (0 ∷ metadata) destination eph
    let shared_sec = shared_secret prim boxed.1 destination
    outer ← to_array outer_len boxed.0
    ok (
      record {
        header = record { outer = outer; inner = garbage };
        onion_body = stream_dencrypt prim (body_key shared_sec) zero_nonce sealed_payload;
      },
      shared_sec ∷ [],
    )

  -- The recursive case, once the packet for the next hop is there.
  unfoldable pub wrap_layer :
      ForwardInstruction
      → ℕ
      → RawPacket × List Bytes
      → Result PacketConstructError (RawPacket × List Bytes)
  unfolding body_key header_key
  wrap_layer instruction eph (next_hop, shared_secs) = do
    let boxed =
        box_encrypt prim (1 ∷ be_bytes 20 instruction.next_fingerprint) instruction.this_pubkey eph
    let shared_sec = shared_secret prim boxed.1 instruction.this_pubkey
    outer ← to_array outer_len boxed.0
    ok (
      record {
        header = record {
          outer = outer;
          inner =
              stream_dencrypt prim (header_key shared_sec) zero_nonce
                (take inner_len (header_bytes next_hop.header));
        };
        onion_body = stream_dencrypt prim (body_key shared_sec) zero_nonce next_hop.onion_body;
      },
      shared_secs ++ shared_sec ∷ [],
    )

  -- RawPacket::new. `eph n` is the secret drawn for the layer with n hops after it.
  unfoldable pub new :
      List ForwardInstruction
      → ℕ
      → InnerPacket
      → Bytes
      → ℕ
      → (ℕ → ℕ)
      → Bytes
      → Result PacketConstructError (RawPacket × List Bytes)
  unfolding last_layer wrap_layer
  new [] destination payload metadata my_isk eph garbage =
      last_layer destination payload metadata my_isk (eph 0) garbage
  new (instruction ∷ route) destination payload metadata my_isk eph garbage =
      let next = new route destination payload metadata my_isk eph garbage in
      if leb 10 (suc (length route))
      then err PacketConstructError.too_many_hops
      else (next >>= wrap_layer instruction (eph (suc (length route))))

  unfoldable pub new_normal :
      List ForwardInstruction
      → ℕ
      → InnerPacket
      → ℕ
      → (ℕ → ℕ)
      → Bytes
      → Result PacketConstructError RawPacket
  new_normal route destination payload my_isk eph garbage = do
    built ← new route destination payload (replicate 20 0) my_isk eph garbage
    ok built.0

  unfoldable pub new_reply : ReplyBlock → InnerPacket → ℕ → Result PacketConstructError RawPacket
  new_reply reply_block payload my_isk = do
    onion_body ←
        map_err (λ _. PacketConstructError.message_too_big) (encode prim codec payload my_isk)
    ok (record { header = reply_block.header; onion_body = onion_body })

  -- A packet for us: a plain one, or one that came back through a reply block.
  unfoldable pub addressed_to_us : Bytes → Bytes → Result PacketPeelError PeeledPacket
  unfolding bytes_beq
  addressed_to_us rest peeled_body =
      if bytes_beq (take 20 rest) (replicate 20 0)
      then (do
        opened ←
            map_err (λ _. PacketPeelError.inner_packet_open_error) (decode prim codec peeled_body)
        ok (PeeledPacket.received opened.1 opened.0))
      else ok (PeeledPacket.garbled_reply (of_be (take 8 rest)) peeled_body)

  -- What the first byte of the metadata decides.
  unfoldable pub by_metadata : Bytes → Bytes → Bytes → Result PacketPeelError PeeledPacket
  unfolding addressed_to_us
  by_metadata [] peeled_header peeled_body = panic
  by_metadata (flag ∷ rest) peeled_header peeled_body =
      if nat_beq flag 1
      then ok (
          PeeledPacket.forward (of_be (take 20 rest))
            (record { header = header_of peeled_header; onion_body = peeled_body }))
      else if nat_beq flag 0
      then addressed_to_us rest peeled_body
      else err PacketPeelError.inner_packet_open_error

  unfoldable pub peel : RawPacket → ℕ → Result PacketPeelError PeeledPacket
  unfolding body_key header_key by_metadata
  peel self our_sk = do
    opened ←
        map_err (λ _. PacketPeelError.decryption_error) (box_decrypt prim self.header.outer our_sk)
    let shared_sec = shared_secret prim our_sk opened.1
    let peeled_header =
        stream_dencrypt prim (header_key shared_sec) zero_nonce
          (self.header.inner ++ replicate (header_len - inner_len) 0)
    let peeled_body = stream_dencrypt prim (body_key shared_sec) zero_nonce self.onion_body
    if not (nat_beq (length opened.0) 21)
        then panic
        else by_metadata opened.0 peeled_header peeled_body
