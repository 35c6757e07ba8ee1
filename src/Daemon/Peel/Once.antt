-- ===== src/Daemon/Peel/Once.antt =====
-- A reply block of ours serves one reply: src/daemon/peel_forward.rs takes its degarbler out of the table.
use earendil.Base.{
  ℕ, ◌≤◌, subst, [], ◌∷◌, ◌≡◌, ◌≢◌, refl, sym, ◌∙◌, List, arith, get-remove, nat_eq, pair_eq,
  nat_beq_iff, ok, err,
}
use earendil.Crypto.{Bytes}
use earendil.Packet.Types.{RawPacket, PeeledPacket}
use earendil.Packet.Raw.{peel}
use earendil.Daemon.Action.{lift, read, or_fail, >>=-ok, >>=-err}
use earendil.Daemon.State.{World, State}
use earendil.Daemon.Peel.{no_degarbler, peel_error, take_degarbler, receive_reply, dispatch, handle}
use earendil.Daemon.Peel.Gone.{IsGone, receive_reply_takes, handle-Stays}

module _ (world : World) where
  -- A packet that is peeled goes on to its branch.
  pub handle_peeled :
      (pkt : RawPacket) (peeled : PeeledPacket) (s : State world)
      → peel world.prim world.codec pkt s.global_onion_sk ≡ ok peeled
      → handle world pkt s ≡ dispatch world peeled s
  unfolding handle or_fail
  handle_peeled pkt peeled s h =
      >>=-ok (read (λ x. x.global_onion_sk)) _ s s s.global_onion_sk refl
      ∙ >>=-ok (or_fail peel_error (lift (peel world.prim world.codec pkt s.global_onion_sk))) _ s s
          peeled (rw h refl)

  -- The packets that the loop handles, one after the other.
  abbrev pub handles : List RawPacket → State world → State world
  handles [] s = s
  handles (pkt ∷ pkts) s = handles pkts (handle world pkt s).1

  module _ (id since : ℕ) (other : (n : ℕ) → since ≤ n → (world.draws n).id ≢ id) where
    handles-IsGone :
        (pkts : List RawPacket) (s : State world)
        → IsGone world id since s
        → IsGone world id since (handles pkts s)
    handles-IsGone [] s p = p
    handles-IsGone (pkt ∷ pkts) s p =
        handles-IsGone pkts (handle world pkt s).1 (handle-Stays world id since other pkt s p)

    first-IsGone :
        (pkt : RawPacket) (body : Bytes) (s : State world)
        → since ≤ s.drawn
        → peel world.prim world.codec pkt s.global_onion_sk
          ≡ ok (PeeledPacket.garbled_reply id body)
        → IsGone world id since (handle world pkt s).1
    unfolding dispatch
    first-IsGone pkt body s p first =
        subst (λ r. IsGone world id since r.1)
          (sym (handle_peeled pkt (PeeledPacket.garbled_reply id body) s first))
          (receive_reply_takes world id since other id body s p
            (ground (arith, get-remove id id s.degarblers, nat_beq_iff id id)) (λ e. e))

  -- A reply block of ours serves at most one reply. After a packet that comes back under its identifier,
  -- whether it could be opened or not, and whatever packets are handled since, every packet under that identifier is
  -- dropped and changes nothing, if none of the draws that are still to come is this identifier.
  pub reply_block_once :
      (id : ℕ) (pkt again : RawPacket) (between : List RawPacket) (body more : Bytes)
      (s : State world)
      → ((n : ℕ) → s.drawn ≤ n → (world.draws n).id ≢ id)
      → peel world.prim world.codec pkt s.global_onion_sk ≡ ok (PeeledPacket.garbled_reply id body)
      → peel world.prim world.codec again (handles between (handle world pkt s).1).global_onion_sk
        ≡ ok (PeeledPacket.garbled_reply id more)
      → handle world again (handles between (handle world pkt s).1)
        ≡ (err (no_degarbler id), handles between (handle world pkt s).1)
  unfolding dispatch receive_reply take_degarbler
  reply_block_once id pkt again between body more s other first second =
      let t = handles between (handle world pkt s).1 in
      let gone : IsGone world id s.drawn t =
        handles-IsGone id s.drawn other between (handle world pkt s).1
          (first-IsGone id s.drawn other pkt body s (omega arith) first) in
      handle_peeled again (PeeledPacket.garbled_reply id more) t second
      ∙ >>=-err (take_degarbler world id) _ t t (no_degarbler id) (ground (arith, gone.1))
