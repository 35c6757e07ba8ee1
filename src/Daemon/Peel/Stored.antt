-- ===== src/Daemon/Peel/Stored.antt =====
-- Reply blocks that come in: src/daemon/peel_forward.rs stores them, and `send_n2r` uses the newest first.
use earendil.Base.{ℕ, ◌≡◌, refl, ap, ◌∙◌, some, List, [], ◌∷◌, ◌++◌, ok}
use earendil.Packet.Types.{RawPacket, ReplyBlock, InnerPacket, PeeledPacket}
use earendil.Packet.Raw.{peel}
use earendil.Daemon.Action.{read, >>=-ok}
use earendil.Daemon.External.{IsLruCache}
use earendil.Daemon.ReplyBlocks.{
  IsBounded, store_insert, store_pop, store_pop-store_insert, store_insert-IsBounded,
}
use earendil.Daemon.State.{World, State}
use earendil.Daemon.Send.{my_fingerprint, pop_anon_dest}
use earendil.Daemon.Peel.{store_all, process_inner_pkt, dispatch, handle}
use earendil.Daemon.Peel.Once.{handle_peeled}

module _ (world : World) (is : IsLruCache world.lru) where
  store_all-IsBounded :
      (src : ℕ) (rbs : List ReplyBlock) (store : world.lru.Cache)
      → IsBounded world.lru store
      → IsBounded world.lru (store_all world src rbs store)
  unfolding store_all
  store_all-IsBounded src [] store b = b
  store_all-IsBounded src (rb ∷ rbs) store b =
      store_all-IsBounded src rbs (store_insert world.lru src rb store)
        (store_insert-IsBounded world.lru is src rb store b)

  store_all-append :
      (src : ℕ) (rbs : List ReplyBlock) (rb : ReplyBlock) (store : world.lru.Cache)
      → store_all world src (rbs ++ rb ∷ []) store
        ≡ store_insert world.lru src rb (store_all world src rbs store)
  unfolding store_all
  store_all-append src [] rb store = refl
  store_all-append src (x ∷ rbs) rb store =
      store_all-append src rbs rb (store_insert world.lru src x store)

  handled :
      (pkt : RawPacket) (src : ℕ) (rbs : List ReplyBlock) (s : State world)
      → peel world.prim world.codec pkt s.global_onion_sk
        ≡ ok (PeeledPacket.received src (InnerPacket.reply_blocks rbs))
      → handle world pkt s ≡ (ok tt, record s { anon_dests = store_all world src rbs s.anon_dests })
  unfolding dispatch process_inner_pkt
  handled pkt src rbs s h =
      handle_peeled world pkt (PeeledPacket.received src (InnerPacket.reply_blocks rbs)) s h
      ∙ >>=-ok (read (my_fingerprint world)) _ s s (my_fingerprint world s) refl

  -- A packet of reply blocks from a source leaves every deque within its capacity, and the next message to
  -- that source takes the last block of the packet.
  pub pop_anon_dest-handle :
      (pkt : RawPacket) (src : ℕ) (rbs : List ReplyBlock) (rb : ReplyBlock) (s : State world)
      → IsBounded world.lru s.anon_dests
      → peel world.prim world.codec pkt s.global_onion_sk
        ≡ ok (PeeledPacket.received src (InnerPacket.reply_blocks (rbs ++ rb ∷ [])))
      → ((pop_anon_dest world src (handle world pkt s).1).0 ≡ ok (some rb))
        × IsBounded world.lru ((handle world pkt s).1).anon_dests
  unfolding pop_anon_dest
  pop_anon_dest-handle pkt src rbs rb s b h =
      let stores : ((handle world pkt s).1).anon_dests
          ≡ store_insert world.lru src rb (store_all world src rbs s.anon_dests) =
        ap (λ r. (r.1).anon_dests) (handled pkt src (rbs ++ rb ∷ []) s h)
        ∙ store_all-append src rbs rb s.anon_dests in
      (
        ap (λ c. ok (store_pop world.lru src c).0) stores
            ∙ ap ok
                (store_pop-store_insert world.lru is src rb (store_all world src rbs s.anon_dests)),
        rw stores (
            store_insert-IsBounded world.lru is src rb (store_all world src rbs s.anon_dests)
              (store_all-IsBounded src rbs s.anon_dests b)),
      )
