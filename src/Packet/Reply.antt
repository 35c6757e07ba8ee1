-- ===== src/Packet/Reply.antt =====
-- libraries/earendil_packet/src/reply_block.rs: reply blocks and what undoes their garbling.
use earendil.Base.{ℕ, ◌-◌, List, [], ◌∷◌, ◌++◌, replicate, Result, ok, ◌>>=◌}
use earendil.Crypto.{Bytes, Primitives, be_bytes}
use earendil.Packet.Types.{
  ForwardInstruction, ReplyBlock, ReplyDegarbler, InnerPacket, PacketConstructError, DecodeError,
  Codec,
}
use earendil.Packet.Crypt.{zero_nonce, onion_public, stream_dencrypt}
use earendil.Packet.Inner.{decode}
use earendil.Packet.Raw.{new, body_key}

module _ (prim : Primitives) (codec : Codec) where
  -- The metadata of a reply block: its identifier in 8 bytes, then zeros.
  unfoldable pub reply_metadata : ℕ → Bytes
  reply_metadata rb_id = be_bytes 8 rb_id ++ replicate (20 - 8) 0

  -- The message whose place the reply will take.
  abbrev pub placeholder : InnerPacket
  placeholder = InnerPacket.message (record { source_dock = 0; dest_dock = 0; body = [] ∷ [] })

  -- ReplyBlock::new. `rb_id`, `eph` and `garbage` are drawn.
  unfoldable pub new_block :
      List ForwardInstruction
      → ℕ
      → ℕ
      → ℕ
      → ℕ
      → (ℕ → ℕ)
      → Bytes
      → Result PacketConstructError (ReplyBlock × (ℕ × ReplyDegarbler))
  unfolding reply_metadata
  new_block route my_opk my_anon_osk my_anon_isk rb_id eph garbage = do
    built ← new prim codec route my_opk placeholder (reply_metadata rb_id) my_anon_isk eph garbage
    ok (
      record { header = built.0.header; e2e_dest = onion_public prim my_anon_osk },
      (
        rb_id,
        record { shared_secs = built.1; my_anon_osk = my_anon_osk; my_anon_isk = my_anon_isk },
      ),
    )

  -- The loop of `degarble` over the shared secrets.
  unfoldable pub degarble_body : List Bytes → Bytes → Bytes
  degarble_body [] raw = raw
  degarble_body (shared_sec ∷ secs) raw =
      degarble_body secs (stream_dencrypt prim (body_key prim codec shared_sec) zero_nonce raw)

  -- ReplyDegarbler::degarble
  unfoldable pub degarble : ReplyDegarbler → Bytes → Result DecodeError (InnerPacket × ℕ)
  unfolding degarble_body
  degarble self raw = decode prim codec (degarble_body self.shared_secs raw)
