-- ===== src/Daemon/Send.antt =====
-- src/daemon/context.rs: `send_n2r` and `send_reply_blocks`, `replenish_rrb` of src/daemon/rrb_balance.rs,
-- and `route_to_instructs` of src/daemon.rs.
pub mod Routes
pub mod Delivers
use earendil.Base.{
  ℕ, zero, suc, ◌+◌, ◌-◌, Bool, true, false, not, Option, none, some, List, [], ◌∷◌, ◌++◌, ltb, leb,
  nat_beq, if◌then◌else◌, Map, get, insert, nat_eq, pair_eq, Result, ok, err, panic, map_err,
}
use earendil.Crypto.{Bytes, fingerprint, public}
use earendil.Packet.Types.{
  RawPacket, ForwardInstruction, ReplyBlock, ReplyDegarbler, InnerPacket, Message,
  PacketConstructError,
}
use earendil.Packet.Crypt.{onion_public}
use earendil.Packet.Raw.{new_normal, new_reply}
use earendil.Packet.Reply.{new_block}
use earendil.Topology.Graph.{RelayGraph, identity}
use earendil.Topology.Search.{Outcome, find_shortest_path}
use earendil.Daemon.Action.{Action, ◌>>=◌, ◌>>◌, return, fail, lift, require, read, modify}
use earendil.Daemon.ReplyBlocks.{store_pop}
use earendil.Daemon.Neighbors.{inject_asif_incoming}
use earendil.Daemon.State.{
  World, State, Draws, SendMessageError, no_route, packet_construct_error, no_onion_public,
  reply_block_failed, no_anon_id, out_of_fuel, ℤ, pos, negsuc,
}

-- route_to_instructs
unfoldable pub route_to_instructs :
    List ℕ → RelayGraph → Result SendMessageError (List ForwardInstruction)
route_to_instructs [] relay_graph = ok []
route_to_instructs (this ∷ []) relay_graph = ok []
route_to_instructs (this ∷ next ∷ rest) relay_graph = elim (identity relay_graph this) [
  | none ↦ err (no_onion_public this)
  | some descr ↦ elim (route_to_instructs (next ∷ rest) relay_graph) [
    | panic ↦ panic
    | err e ↦ err e
    | ok instructs ↦
        ok (record { this_pubkey = descr.onion_pk; next_fingerprint = next } ∷ instructs)
  ]
]

-- find_shortest_path(start, end).ok_or(NoRoute(dst))
unfoldable pub route_between : RelayGraph → ℕ → ℕ → ℕ → Result SendMessageError (List ℕ)
route_between g start_fp end_fp dst = elim (find_shortest_path g start_fp end_fp) [
  | Outcome.found fps ↦ ok fps
  | Outcome.no_path ↦ err (no_route dst)
  | Outcome.out_of_fuel ↦ panic
  | Outcome.panicked ↦ panic
]

-- identity(&fp).ok_or(NoOnionPublic(fp))?.onion_pk
unfoldable pub onion_key_of : RelayGraph → ℕ → Result SendMessageError ℕ
onion_key_of g fp = elim (identity g fp) [
  | none ↦ err (no_onion_public fp)
  | some descr ↦ ok descr.onion_pk
]

-- A balance and some more, and one less.
unfoldable pub plus : ℤ → ℕ → ℤ
plus (pos n) m = pos (n + m)
plus (negsuc n) m = if leb (suc n) m then pos (m - suc n) else negsuc (n - m)

unfoldable pub minus_one : ℤ → ℤ
minus_one (pos zero) = negsuc 0
minus_one (pos (suc n)) = pos n
minus_one (negsuc n) = negsuc (suc n)

-- How far a balance is from 100.
unfoldable pub missing : ℤ → ℕ
missing (pos n) = 100 - n
missing (negsuc n) = 101 + n

-- balance < 100.0
unfoldable pub below : ℤ → Bool
unfolding missing
below balance = ltb 0 (missing balance)

module _ (world : World) where
  abbrev pub Handler : Type 0 → Type 0
  Handler A = Action (State world) SendMessageError A

  -- A draw of randomness.
  unfoldable pub draw : Handler Draws
  draw s = (ok (world.draws s.drawn), record s { drawn = s.drawn + 1 })

  -- ctx.get(GLOBAL_IDENTITY).public().fingerprint()
  unfoldable pub my_fingerprint : State world → ℕ
  my_fingerprint s = fingerprint world.prim (public world.prim s.global_identity)

  -- ctx.get(NEIGH_TABLE).inject_asif_incoming(pkt)
  unfoldable pub inject : RawPacket → Handler (Unit {0})
  inject pkt =
      modify (λ s. record s { neigh_table = inject_asif_incoming world.packets pkt s.neigh_table })

  -- ONION_SK_CACHE.get_with(fp, OnionSecret::generate)
  unfoldable pub anon_osk : ℕ → Handler ℕ
  anon_osk my_anon_isk s =
      let fp = fingerprint world.prim (public world.prim my_anon_isk) in
      elim (get fp s.onion_sk_cache) [
        | some osk ↦ (ok osk, s)
        | none ↦ (
          ok (world.fresh s.drawn),
          record s {
            onion_sk_cache = insert fp (world.fresh s.drawn) s.onion_sk_cache;
            drawn = s.drawn + 1;
          },
        )
      ]

  -- The loop of `send_reply_blocks`.
  unfoldable pub make_blocks : ℕ → List ForwardInstruction → ℕ → ℕ → Handler (List ReplyBlock)
  unfolding draw
  make_blocks zero reverse_instructs my_anon_osk my_anon_isk = return []
  make_blocks (suc count) reverse_instructs my_anon_osk my_anon_isk = do
    drawn ← draw
    my_opk ← read (λ s. onion_public world.prim s.global_onion_sk)
    built ← lift (
        map_err (λ _. reply_block_failed)
          (new_block world.prim world.codec reverse_instructs my_opk my_anon_osk my_anon_isk
            drawn.id drawn.eph drawn.garbage))
    modify (λ s. record s { degarblers = insert (built.1).0 (built.1).1 s.degarblers })
    rbs ← make_blocks count reverse_instructs my_anon_osk my_anon_isk
    return (built.0 ∷ rbs)

  -- RawPacket::new_normal with what it draws
  unfoldable pub build_normal : List ForwardInstruction → ℕ → InnerPacket → ℕ → Handler RawPacket
  unfolding draw
  build_normal instructs their_opk payload isk = do
    drawn ← draw
    lift (
        map_err packet_construct_error (
          new_normal world.prim world.codec instructs their_opk payload isk drawn.eph
            drawn.garbage))

  unfoldable pub send_reply_blocks : ℕ → ℕ → ℕ → Handler (Unit {0})
  unfolding anon_osk make_blocks build_normal inject my_fingerprint
  send_reply_blocks count my_anon_isk dst_fp = do
    my_anon_osk ← anon_osk my_anon_isk
    me ← read my_fingerprint
    graph ← read (λ s. s.relay_graph)
    route ← lift (route_between graph me dst_fp dst_fp)
    their_opk ← lift (onion_key_of graph dst_fp)
    instructs ← lift (route_to_instructs route graph)
    reverse_route ← lift (route_between graph dst_fp me dst_fp)
    reverse_instructs ← lift (route_to_instructs reverse_route graph)
    rbs ← make_blocks count reverse_instructs my_anon_osk my_anon_isk
    wrapped_rb_onion ← build_normal instructs their_opk (InnerPacket.reply_blocks rbs) my_anon_isk
    inject wrapped_rb_onion

  -- rb_balance; the first look enters a balance of nothing
  unfoldable pub balance_of : ℕ → ℕ → State world → ℤ
  balance_of my_anon_isk reply_source s = elim (get (my_anon_isk, reply_source) s.balance_table) [
    | none ↦ pos 0
    | some balance ↦ balance
  ]

  unfoldable pub set_balance : ℕ → ℕ → ℤ → State world → State world
  set_balance my_anon_isk dst_fp balance s = record s {
    balance_table = insert (my_anon_isk, dst_fp) balance s.balance_table;
  }

  unfoldable pub rb_balance : ℕ → ℕ → Handler ℤ
  unfolding balance_of set_balance
  rb_balance my_anon_isk reply_source s =
      let balance = balance_of my_anon_isk reply_source s in
      (ok balance, set_balance my_anon_isk reply_source balance s)

  unfoldable pub decrement_rrb_balance : ℕ → ℕ → Handler (Unit {0})
  unfolding rb_balance set_balance
  decrement_rrb_balance my_anon_isk reply_source = do
    new_balance ← rb_balance my_anon_isk reply_source
    modify (set_balance my_anon_isk reply_source (minus_one new_balance))

  -- The body of the loop of `replenish_rrb`.
  unfoldable pub refill : ℕ → ℕ → Handler (Unit {0})
  unfolding send_reply_blocks rb_balance set_balance
  refill my_anon_isk dst_fp = do
    send_reply_blocks 10 my_anon_isk dst_fp
    balance ← rb_balance my_anon_isk dst_fp
    modify (set_balance my_anon_isk dst_fp (plus balance 5))

  -- while rb_balance(..) < 100.0
  unfoldable pub refill_loop : ℕ → ℕ → ℕ → Handler (Unit {0})
  unfolding rb_balance refill
  refill_loop zero my_anon_isk dst_fp = fail out_of_fuel
  refill_loop (suc fuel) my_anon_isk dst_fp = do
    balance ← rb_balance my_anon_isk dst_fp
    elim (below balance) [
      | false ↦ return tt
      | true ↦ refill my_anon_isk dst_fp >>= λ _. refill_loop fuel my_anon_isk dst_fp
    ]

  unfoldable pub replenish_rrb : ℕ → ℕ → Handler (Unit {0})
  unfolding refill_loop
  replenish_rrb my_anon_isk dst_fp s =
      refill_loop (suc (missing (balance_of my_anon_isk dst_fp s))) my_anon_isk dst_fp s

  -- &src_idsk != ctx.get(GLOBAL_IDENTITY)
  unfoldable pub is_anon : ℕ → State world → Bool
  is_anon src_idsk s = not (nat_beq src_idsk s.global_identity)

  -- ctx.get(ANON_DESTS).lock().pop(&dst_fp)
  unfoldable pub pop_anon_dest : ℕ → Handler (Option ReplyBlock)
  pop_anon_dest dst_fp s =
      let taken = store_pop world.lru dst_fp s.anon_dests in
      (ok taken.0, record s { anon_dests = taken.1 })

  -- The branch of `send_n2r` for a destination that gave us a reply block.
  unfoldable pub send_by_block : Bool → ReplyBlock → ℕ → InnerPacket → Handler (Unit {0})
  unfolding inject
  send_by_block src_anon reply_block src_idsk inner = if src_anon then fail no_anon_id else do
    raw_packet ← lift (
        map_err packet_construct_error
          (new_reply world.prim world.codec reply_block inner src_idsk))
    inject raw_packet

  -- The branch for a destination in the graph.
  unfoldable pub send_by_route : Bool → ℕ → ℕ → InnerPacket → Handler (Unit {0})
  unfolding build_normal replenish_rrb inject my_fingerprint
  send_by_route src_anon src_idsk dst_fp inner = do
    me ← read my_fingerprint
    graph ← read (λ s. s.relay_graph)
    route ← lift (route_between graph me dst_fp dst_fp)
    instructs ← lift (route_to_instructs route graph)
    their_opk ← lift (onion_key_of graph dst_fp)
    wrapped_onion ← build_normal instructs their_opk inner src_idsk
    if src_anon then replenish_rrb src_idsk dst_fp else return tt
    inject wrapped_onion

  unfoldable pub send_n2r : ℕ → ℕ → ℕ → ℕ → List Bytes → Handler (Unit {0})
  unfolding is_anon pop_anon_dest send_by_block send_by_route
  send_n2r src_idsk src_dock dst_fp dst_dock content = do
    src_anon ← read (is_anon src_idsk)
    maybe_reply_block ← pop_anon_dest dst_fp
    let inner =
        InnerPacket.message
          (record { source_dock = src_dock; dest_dock = dst_dock; body = content })
    elim maybe_reply_block [
      | some reply_block ↦ send_by_block src_anon reply_block src_idsk inner
      | none ↦ send_by_route src_anon src_idsk dst_fp inner
    ]
