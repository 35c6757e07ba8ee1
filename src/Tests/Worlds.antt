-- ===== src/Tests/Worlds.antt =====
-- A cache, channels and a world for the daemon, with the toy ciphers and coder.
use mathlib.Core.Option.{map as map_option}
use earendil.Base.{
  ℕ, ◌+◌, ◌≡◌, refl, ap, inl, inr, Option, none, some, List, [], ◌∷◌, ◌++◌, arith, length,
  replicate, ltb, nat_beq, nat_beq_iff, if◌then◌else◌, Map, get, insert, get-insert, nat_eq,
  Option-cases,
}
use earendil.Packet.Types.{RawPacket, Message}
use earendil.Daemon.External.{LruCache, IsLruCache, Channel, IsChannel, HasCapacity, or_else}
use earendil.Daemon.ReplyBlocks.{ReplyBlockDeque}
use earendil.Daemon.State.{World}
use earendil.Tests.Ciphers.{ciphers}
use earendil.Tests.Coder.{coder}

abbrev pub update {ℓ} : {V : Type ℓ} → ℕ → (V → V) → Map ℕ V → Map ℕ V
update k f c = elim (get k c) [ none ↦ c | some v ↦ insert k (f v) c ]

-- A cache that never has to evict.
abbrev pub large_cache : LruCache ReplyBlockDeque
large_cache = record {
  Cache = Map ℕ ReplyBlockDeque;
  empty = λ n. [];
  peek = λ k c. get k c;
  get_mut = λ k f c. update k f c;
  get_or_insert_mut = λ k v f c. insert k (f (or_else v (get k c))) c;
}

get-update :
    (j k : ℕ) (f : ReplyBlockDeque → ReplyBlockDeque) (c : Map ℕ ReplyBlockDeque)
    → get j (update k f c) ≡ (if nat_beq k j then map_option f (get j c) else get j c)
get-update j k f c = elim (Option-cases (get k c)) [
  | inl gone ↦ ground (arith, gone, nat_beq_iff k j)
  | inr (v, e) ↦ ground (arith, e, nat_beq_iff k j, get-insert k j (f v) c)
]

pub large_cache-IsLruCache : IsLruCache large_cache
unfolding get
large_cache-IsLruCache = record {
  peek-empty = λ n k. refl;
  peek-get_mut = λ j k f c. get-update j k f c;
  peek-get_or_insert_mut =
      λ k v f c. ground (arith, get-insert k k (f (or_else v (get k c))) c, nat_beq_iff k k);
  peek-get_or_insert_mut_other = λ j k v f c h.
      inl (ground (arith, get-insert k j (f (or_else v (get k c))) c, nat_beq_iff k j));
}

abbrev pub room_in {ℓ} : {A : Type ℓ} → A → ℕ × List A → Option (ℕ × List A)
room_in a (capacity, items) =
    if ltb (length items) capacity then some (capacity, items ++ a ∷ []) else none

abbrev pub oldest_of {ℓ} : {A : Type ℓ} → ℕ × List A → Option (A × (ℕ × List A))
oldest_of (capacity, []) = none
oldest_of (capacity, a ∷ items) = some (a, (capacity, items))

abbrev pub channel : (A : Type 0) → Channel A
channel A = record {
  Queue = ℕ × List A;
  bounded = λ n. (n, []);
  pending = λ q. q.1;
  try_send = λ a q. room_in a q;
  recv = λ q. oldest_of q;
}

pub channel-IsChannel : (A : Type 0) → IsChannel (channel A)
channel-IsChannel A = record {
  pending-bounded = λ n. refl;
  pending-try_send = λ a q r h. ground (arith, h);
  recv_empty = λ q h. ap (λ xs. oldest_of (q.0, xs)) h;
  recv_oldest = λ a rest q h. ((q.0, rest), ap (λ xs. oldest_of (q.0, xs)) h, refl);
}

pub channel-HasCapacity : (A : Type 0) → HasCapacity (channel A)
channel-HasCapacity A = record {
  capacity = λ q. q.0;
  capacity-bounded = λ n. refl;
  try_send_room = λ a q h. ((q.0, q.1 ++ a ∷ []), ground (arith, h), refl);
  try_send_full = λ a q h. ground (arith, h);
}

abbrev pub small_world : World
small_world = record {
  prim = ciphers;
  codec = coder;
  lru = large_cache;
  packets = channel RawPacket;
  messages = channel (Message × ℕ);
  draws = λ n. record { id = 1000 + n; eph = λ i. 40 + i; garbage = replicate 621 9 };
  fresh = λ n. 500 + n;
}
