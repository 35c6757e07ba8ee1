-- ===== src/Packet/Types.antt =====
-- The data of libraries/earendil_packet/src: raw.rs, inner.rs and reply_block.rs.
use earendil.Base.{ℕ, ◌≡◌, Option, some, List, ◌++◌}
use earendil.Crypto.{Bytes}

-- The sizes of a packet's parts.
abbrev pub outer_len : ℕ
outer_len = 69

abbrev pub inner_len : ℕ
inner_len = 621

abbrev pub header_len : ℕ
header_len = 690

abbrev pub body_len : ℕ
body_len = 8192

pub record RawHeader : Type 0 where
  pub outer : Bytes
  pub inner : Bytes

pub record RawPacket : Type 0 where
  pub header : RawHeader
  pub onion_body : Bytes

pub record ForwardInstruction : Type 0 where
  pub this_pubkey : ℕ
  pub next_fingerprint : ℕ

pub record ReplyBlock : Type 0 where
  pub header : RawHeader
  pub e2e_dest : ℕ

pub record Message : Type 0 where
  pub source_dock : ℕ
  pub dest_dock : ℕ
  pub body : List Bytes

pub data InnerPacket : Type 0 where
  message : Message → InnerPacket
  reply_blocks : List ReplyBlock → InnerPacket

pub data PacketConstructError : Type 0 where
  too_many_hops message_too_big : PacketConstructError

pub data PacketPeelError : Type 0 where
  decryption_error inner_packet_open_error : PacketPeelError

pub data DecodeError : Type 0 where
  bad_packaging decryption_failed : DecodeError

pub data EncodeError : Type 0 where
  bad_packaging message_too_big : EncodeError

pub data AeadError : Type 0 where
  decryption_failed : AeadError

pub data PeeledPacket : Type 0 where
  forward : ℕ → RawPacket → PeeledPacket
  received : ℕ → InnerPacket → PeeledPacket
  garbled_reply : ℕ → Bytes → PeeledPacket

pub record ReplyDegarbler : Type 0 where
  pub shared_secs : List Bytes
  pub my_anon_osk : ℕ
  pub my_anon_isk : ℕ

-- bincode's coder with trailing bytes allowed.
pub record Codec : Type 0 where
  pub serialize : InnerPacket → Bytes
  pub deserialize : Bytes → Option InnerPacket

pub record IsCodec (codec : Codec) : Type 0 where
  pub deserialize-serialize :
      (p : InnerPacket) (rest : Bytes) → codec.deserialize (codec.serialize p ++ rest) ≡ some p
