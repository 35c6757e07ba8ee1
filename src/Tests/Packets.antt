-- ===== src/Tests/Packets.antt =====
-- Packets that come in at the daemon of `Tests.Daemons`, and its sockets.
use mathlib.Core.List.{flatten}
use earendil.Base.{
  ℕ, ◌≡◌, ◌≢◌, ◌≤◌, refl, sym, subst, ◌⊎◌, some, List, [], ◌∷◌, ◌++◌, map, arith, replicate,
  length-replicate, get, insert, remove, take, drop, nat_eq, pair_eq, ok, err, true,
}
use earendil.Crypto.{Bytes, be_bytes, of_be}
use earendil.Packet.Types.{RawPacket, InnerPacket, PeeledPacket, Message}
use earendil.Packet.Crypt.{onion_public, box_encrypt, box_decrypt, stream_dencrypt}
use earendil.Packet.Inner.{decode, encode}
use earendil.Packet.Raw.{peel, new, to_array}
use earendil.Packet.Reply.{new_block, reply_metadata, degarble}
use earendil.Daemon.Action.{◌>>=◌, or_fail}
use earendil.Daemon.ReplyBlocks.{IsBounded}
use earendil.Daemon.State.{State, Endpoint}
use earendil.Daemon.Send.{draw, pop_anon_dest, make_blocks}
use earendil.Daemon.Peel.{handle, no_degarbler}
use earendil.Daemon.Peel.Once.{handles, reply_block_once}
use earendil.Daemon.Peel.Stored.{pop_anon_dest-handle}
use earendil.Socket.N2r.{n2r_recv_error, Receiver, recv_from, send_batch}
use earendil.Socket.N2r.Batches.{
  AreSubbatches, send_each, send_empty, send_batch_lem, send_batch_stuck,
}
use earendil.Socket.N2r.Receives.{upcoming, recv_from_lem}
use earendil.Tests.Ciphers.{ciphers, flip}
use earendil.Tests.Coder.{coder}
use earendil.Tests.Worlds.{
  channel, channel-IsChannel, large_cache, large_cache-IsLruCache, small_world,
}
use earendil.Tests.Daemons.{daemon, block, daemon-IsBounded}

-- A reply under the identifier 1000, for the daemon's onion key.
abbrev reply : RawPacket
reply = record {
  header = record {
    outer =
        (box_encrypt ciphers (0 ∷ reply_metadata ciphers coder 1000) (onion_public ciphers 11)
          40).0;
    inner = [];
  };
  onion_body = [];
}

reply_peeled : peel ciphers coder reply 11 ≡ ok (PeeledPacket.garbled_reply 1000 [])
unfolding peel box_decrypt box_encrypt be_bytes reply_metadata replicate take drop of_be
    stream_dencrypt
reply_peeled = refl

-- The daemon after it made a block, for which it drew that identifier.
abbrev waiting : State small_world
waiting = (make_blocks small_world 1 [] 8 9 daemon).1

waiting_lem : (waiting.drawn ≡ 1) × (map (λ entry. entry.0) waiting.degarblers ≡ 1000 ∷ [])
unfolding make_blocks ◌>>=◌ draw new_block new insert encode to_array box_encrypt be_bytes replicate
    take
waiting_lem = (refl, refl)

not_again : (n : ℕ) → waiting.drawn ≤ n → (small_world.draws n).id ≢ 1000
not_again n h e = omega (arith, waiting_lem.0, h, e)

key_kept :
    (handles small_world (reply ∷ []) (handle small_world reply waiting).1).global_onion_sk ≡ 11
unfolding handle ◌>>=◌ or_fail peel box_decrypt box_encrypt be_bytes reply_metadata replicate take
    drop of_be get degarble decode stream_dencrypt new_block new encode to_array insert remove
    make_blocks draw
key_kept = refl

key_made : waiting.global_onion_sk ≡ 11
unfolding make_blocks ◌>>=◌ draw new_block new insert encode to_array box_encrypt be_bytes replicate
    take
key_made = refl

reply_block_once_example :
    let later = handles small_world (reply ∷ []) (handle small_world reply waiting).1 in
    handle small_world reply later ≡ (err (no_degarbler 1000), later)
reply_block_once_example =
    reply_block_once small_world 1000 reply reply (reply ∷ []) [] [] waiting not_again
      (subst (λ k. peel ciphers coder reply k ≡ ok (PeeledPacket.garbled_reply 1000 []))
        (sym key_made) reply_peeled)
      (subst (λ k. peel ciphers coder reply k ≡ ok (PeeledPacket.garbled_reply 1000 []))
        (sym key_kept) reply_peeled)

-- A packet with one reply block.
abbrev gift : RawPacket
gift = record {
  header = record {
    outer = (box_encrypt ciphers (0 ∷ replicate 20 0) (onion_public ciphers 11) 40).0;
    inner = [];
  };
  onion_body = map flip (be_bytes 20 77 ++ coder.serialize (InnerPacket.reply_blocks (block ∷ [])));
}

gift_peeled :
    peel ciphers coder gift 11
    ≡ ok (PeeledPacket.received 77 (InnerPacket.reply_blocks (block ∷ [])))
unfolding peel box_decrypt box_encrypt be_bytes reply_metadata replicate take drop of_be
    stream_dencrypt decode
gift_peeled = refl

pop_anon_dest-handle_example :
    ((pop_anon_dest small_world 77 (handle small_world gift daemon).1).0 ≡ ok (some block))
    × IsBounded large_cache ((handle small_world gift daemon).1).anon_dests
pop_anon_dest-handle_example =
    pop_anon_dest-handle small_world large_cache-IsLruCache gift 77 [] block daemon daemon-IsBounded
      gift_peeled

send_batch_lem_example :
    (subs : List (List Bytes)) × (flatten subs ≡ (1 ∷ []) ∷ (2 ∷ []) ∷ [])
    × AreSubbatches subs
    × (send_batch small_world 1 5 2 (7, 8) ((1 ∷ []) ∷ (2 ∷ []) ∷ [])
        ≡ send_each small_world 1 5 (7, 8) subs)
send_batch_lem_example =
    send_batch_lem small_world 1 5 (7, 8) 2 ((1 ∷ []) ∷ (2 ∷ []) ∷ []) (omega arith)
      (omega arith, (omega arith, tt))

send_batch_stuck_example :
    send_batch small_world 1 5 3 (7, 8) (replicate 8183 0 ∷ [])
    ≡ send_empty small_world 1 5 (7, 8) 3
send_batch_stuck_example =
    send_batch_stuck small_world 1 5 (7, 8) 3 (replicate 8183 0) []
      (omega (arith, length-replicate {A = ℕ} 8183 0))

-- A socket with a message of two pieces pending, whose dock was given to another.
abbrev socket : Receiver (channel (Message × ℕ))
socket = record {
  recv_incoming =
      (1000, (record { source_dock = 3; dest_dock = 4; body = (1 ∷ []) ∷ (2 ∷ []) ∷ [] }, 7) ∷ []);
  is_closed = true;
  incoming_queue = [];
}

recv_from_lem_example :
    ((after : Receiver (channel (Message × ℕ))) × (upcoming (channel (Message × ℕ)) socket ≡ [])
      × (upcoming (channel (Message × ℕ)) after ≡ [])
      × (recv_from (channel (Message × ℕ)) 2 socket ≡ some (err n2r_recv_error, after)))
    ⊎ ((piece : Bytes × Endpoint) × (rest : List (Bytes × Endpoint)) × (after : Receiver
          (channel (Message × ℕ)))
        × (upcoming (channel (Message × ℕ)) socket ≡ piece ∷ rest)
        × (recv_from (channel (Message × ℕ)) 2 socket ≡ some (ok piece, after))
        × (upcoming (channel (Message × ℕ)) after ≡ rest))
recv_from_lem_example =
    recv_from_lem (channel (Message × ℕ)) (channel-IsChannel (Message × ℕ)) 2 socket (omega arith)
