-- ===== src/Tests/Daemons.antt =====
-- A daemon in the relay graph of `Tests.Graphs`.
use earendil.Base.{ℕ, ◌≡◌, refl, some, List, [], ◌∷◌, arith, length-replicate, get, nat_eq}
use earendil.Crypto.{Bytes, fingerprint}
use earendil.Packet.Types.{RawPacket, ReplyBlock}
use earendil.Daemon.ReplyBlocks.{
  IsBounded, store_insert, store_pop, new_store, store_pop-store_insert,
}
use earendil.Daemon.Neighbors.{new_table}
use earendil.Daemon.State.{State}
use earendil.Daemon.Send.{send_n2r, replenish_rrb}
use earendil.Daemon.Send.Delivers.{payload, AreKeys, IsOutcome, send_n2r-IsOutcome}
use earendil.Daemon.Balance.{Ends, replenish_rrb-Ends}
use earendil.Tests.Ciphers.{ciphers, ciphers-IsLawful}
use earendil.Tests.Coder.{coder-IsCodec}
use earendil.Tests.Worlds.{large_cache, large_cache-IsLruCache, channel, small_world}
use earendil.Tests.Graphs.{linked, linked-IsWellFormed, secret_of, linked_keys}

abbrev pub daemon : State small_world
daemon = record {
  global_identity = 1;
  global_onion_sk = 11;
  relay_graph = linked;
  anon_dests = [];
  neigh_table = new_table (channel RawPacket);
  sent = [];
  socket_recv_queues = [];
  degarblers = [];
  balance_table = [];
  onion_sk_cache = [];
  drawn = 0;
}

abbrev pub block : ReplyBlock
block = record { header = record { outer = []; inner = [] }; e2e_dest = 3 }

store_pop-store_insert_example :
    (store_pop large_cache 7 (store_insert large_cache 7 block (new_store large_cache))).0
    ≡ some block
store_pop-store_insert_example =
    store_pop-store_insert large_cache large_cache-IsLruCache 7 block (new_store large_cache)

replenish_rrb-Ends_example : Ends small_world 5 9 daemon (replenish_rrb small_world 5 9 daemon)
replenish_rrb-Ends_example = replenish_rrb-Ends small_world 5 9 daemon

abbrev greeting : List Bytes
greeting = (104 ∷ 105 ∷ []) ∷ []

daemon-AreKeys : AreKeys small_world secret_of linked
daemon-AreKeys = linked_keys

send_n2r-IsOutcome_example :
    IsOutcome small_world secret_of
      (fingerprint ciphers 2)
      (payload 1 2 greeting)
      daemon
      (send_n2r small_world 1 1 (fingerprint ciphers 2) 2 greeting daemon)
unfolding get
send_n2r-IsOutcome_example =
    send_n2r-IsOutcome small_world ciphers-IsLawful coder-IsCodec
      (λ n. length-replicate {A = ℕ} 621 9) secret_of 1 (fingerprint ciphers 2) 2 greeting daemon
      linked-IsWellFormed daemon-AreKeys refl (omega arith)

pub daemon-IsBounded : IsBounded large_cache daemon.anon_dests
unfolding get
daemon-IsBounded = λ fp d h. absurd (ground arith)
