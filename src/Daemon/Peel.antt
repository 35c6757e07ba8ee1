-- ===== src/Daemon/Peel.antt =====
-- src/daemon/peel_forward.rs: what the daemon does with a packet that comes in.
pub mod Gone
pub mod Once
pub mod Stored
use earendil.Base.{
  ℕ, ◌+◌, ◌≡◌, ◌≢◌, refl, ap, sym, ◌∙◌, ◌⊎◌, inl, inr, Bool, true, false, Option, none, some, List,
  [], ◌∷◌, ◌++◌, arith, Map, get, insert, remove, get-insert, get-remove, nat_eq, pair_eq,
  nat_beq_iff, if◌then◌else◌, Result, ok, err, panic, Option-cases,
}
use earendil.Crypto.{Bytes, fingerprint, public}
use earendil.Packet.Types.{
  RawPacket, ReplyBlock, ReplyDegarbler, InnerPacket, Message, PeeledPacket, PacketPeelError,
  DecodeError,
}
use earendil.Packet.Raw.{peel}
use earendil.Packet.Reply.{degarble}
use earendil.Daemon.Action.{Action, ◌>>=◌, ◌>>◌, return, fail, lift, require, read, modify, or_fail}
use earendil.Daemon.ReplyBlocks.{store_insert}
use earendil.Daemon.Neighbors.{lookup, recv_raw_packet}
use earendil.Daemon.State.{World, State, Endpoint, SendMessageError}
use earendil.Daemon.Send.{my_fingerprint, decrement_rrb_balance, replenish_rrb}

-- Why the loop ends on a packet; it is started again, and the packet is dropped.
pub data LoopError : Type 0 where
  peel_error : PacketPeelError → LoopError
  decode_error : DecodeError → LoopError
  send_error : SendMessageError → LoopError
  no_next_hop no_degarbler : ℕ → LoopError
  no_socket queue_full : Endpoint → LoopError

module _ (world : World) where
  abbrev pub Loop : Type 0 → Type 0
  Loop A = Action (State world) LoopError A

  -- for reply_block in reply_blocks { ANON_DESTS.insert(src_fp, reply_block) }
  unfoldable pub store_all : ℕ → List ReplyBlock → world.lru.Cache → world.lru.Cache
  store_all src_fp [] store = store
  store_all src_fp (rb ∷ rbs) store = store_all src_fp rbs (store_insert world.lru src_fp rb store)

  -- send_incoming.try_send((msg, src_fp))?
  unfoldable pub deliver : Endpoint → Message → ℕ → Loop (Unit {0})
  deliver dest msg src_fp s = elim (get dest s.socket_recv_queues) [
    | none ↦ (err (no_socket dest), s)
    | some queue ↦ elim (world.messages.try_send (msg, src_fp) queue) [
      | none ↦ (err (queue_full dest), s)
      | some longer ↦
          (ok tt, record s { socket_recv_queues = insert dest longer s.socket_recv_queues })
    ]
  ]

  unfoldable pub process_inner_pkt : InnerPacket → ℕ → ℕ → Loop (Unit {0})
  unfolding deliver store_all
  process_inner_pkt (InnerPacket.message msg) src_fp dest_fp =
      deliver (dest_fp, msg.dest_dock) msg src_fp
  process_inner_pkt (InnerPacket.reply_blocks rbs) src_fp dest_fp =
      modify (λ s. record s { anon_dests = store_all src_fp rbs s.anon_dests })

  -- The branch of a packet that goes on.
  unfoldable pub forward : ℕ → RawPacket → Loop (Unit {0})
  forward next_hop inner s = elim (lookup world.packets next_hop s.neigh_table) [
    | none ↦ (err (no_next_hop next_hop), s)
    | some conn ↦ (ok tt, record s { sent = s.sent ++ (conn, inner) ∷ [] })
  ]

  -- DEGARBLERS.remove(&id)
  unfoldable pub take_degarbler : ℕ → Loop ReplyDegarbler
  take_degarbler id s = elim (get id s.degarblers) [
    | none ↦ (err (no_degarbler id), s)
    | some degarbler ↦ (ok degarbler, record s { degarblers = remove id s.degarblers })
  ]

  -- The branch of a reply that comes back through one of our reply blocks.
  unfoldable pub receive_reply : ℕ → Bytes → Loop (Unit {0})
  unfolding take_degarbler decrement_rrb_balance replenish_rrb process_inner_pkt
  receive_reply id pkt = do
    reply_degarbler ← take_degarbler id
    opened ← or_fail decode_error (lift (degarble world.prim world.codec reply_degarbler pkt))
    or_fail send_error (decrement_rrb_balance world reply_degarbler.my_anon_isk opened.1)
    or_fail send_error (replenish_rrb world reply_degarbler.my_anon_isk opened.1)
    process_inner_pkt opened.0 opened.1
        (fingerprint world.prim (public world.prim reply_degarbler.my_anon_isk))

  unfoldable pub dispatch : PeeledPacket → Loop (Unit {0})
  unfolding forward receive_reply process_inner_pkt my_fingerprint
  dispatch (PeeledPacket.forward next_hop inner) = forward next_hop inner
  dispatch (PeeledPacket.received src_fp inner) = do
    me ← read (my_fingerprint world)
    process_inner_pkt inner src_fp me
  dispatch (PeeledPacket.garbled_reply id pkt) = receive_reply id pkt

  -- What the loop does with one packet.
  unfoldable pub handle : RawPacket → Loop (Unit {0})
  unfolding dispatch
  handle pkt = do
    our_sk ← read (λ s. s.global_onion_sk)
    peeled ← or_fail peel_error (lift (peel world.prim world.codec pkt our_sk))
    dispatch peeled

  -- One turn of the loop; `none` while no packet is there.
  unfoldable pub turn : State world → Option (Result LoopError (Unit {0}) × State world)
  unfolding handle
  turn s = elim (recv_raw_packet world.packets s.neigh_table) [
    | none ↦ none
    | some taken ↦ some (handle taken.0 (record s { neigh_table = taken.1 }))
  ]
