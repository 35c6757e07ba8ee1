-- ===== src/Daemon/External.antt =====
-- What the crates lru and smol's channels provide: operations, what can be observed of a cache and of a
-- channel, and the documented behaviour that the daemon relies on.
use mathlib.Core.Option.{map as map_option}
use earendil.Base.{
  ℕ, ◌≡◌, ◌≢◌, ◌⊎◌, Option, none, some, List, [], ◌∷◌, ◌++◌, nat_beq, if◌then◌else◌, length, ◌≤◌,
  ◌<◌,
}

abbrev pub or_else {ℓ} : {A : Type ℓ} → A → Option A → A
or_else a none = a
or_else a (some b) = b

-- lru::LruCache with fingerprints as keys. A change through the reference that `get_mut` or
-- `get_or_insert_mut` returns is a function on the value.
pub record LruCache (V : Type 0) : Type 1 where
  pub Cache : Type 0
  pub empty : ℕ → Cache
  pub peek : ℕ → Cache → Option V
  pub get_mut : ℕ → (V → V) → Cache → Cache
  pub get_or_insert_mut : ℕ → V → (V → V) → Cache → Cache

pub record IsLruCache {V : Type 0} (lru : LruCache V) : Type 0 where
  pub peek-empty : (n k : ℕ) → lru.peek k (lru.empty n) ≡ none
  pub peek-get_mut :
      (j k : ℕ) (f : V → V) (c : lru.Cache)
      → lru.peek j (lru.get_mut k f c)
        ≡ (if nat_beq k j then map_option f (lru.peek j c) else lru.peek j c)
  pub peek-get_or_insert_mut :
      (k : ℕ) (v : V) (f : V → V) (c : lru.Cache)
      → lru.peek k (lru.get_or_insert_mut k v f c) ≡ some (f (or_else v (lru.peek k c)))
  pub peek-get_or_insert_mut_other :
      (j k : ℕ) (v : V) (f : V → V) (c : lru.Cache)
      → k ≢ j
      → (lru.peek j (lru.get_or_insert_mut k v f c) ≡ lru.peek j c)
        ⊎ (lru.peek j (lru.get_or_insert_mut k v f c) ≡ none)

-- A bounded channel of smol: `try_send` refuses when it is full, and `recv` takes the oldest item.
pub record Channel (A : Type 0) : Type 1 where
  pub Queue : Type 0
  pub bounded : ℕ → Queue
  pub pending : Queue → List A
  pub try_send : A → Queue → Option Queue
  pub recv : Queue → Option (A × Queue)

-- A bounded channel takes as many items as it was made for, and no more.
pub record HasCapacity {A : Type 0} (channel : Channel A) : Type 0 where
  pub capacity : channel.Queue → ℕ
  pub capacity-bounded : (n : ℕ) → capacity (channel.bounded n) ≡ n
  pub try_send_room :
      (a : A) (q : channel.Queue)
      → length (channel.pending q) < capacity q
      → (r : channel.Queue) × (channel.try_send a q ≡ some r) × (capacity r ≡ capacity q)
  pub try_send_full :
      (a : A) (q : channel.Queue)
      → capacity q ≤ length (channel.pending q)
      → channel.try_send a q ≡ none

pub record IsChannel {A : Type 0} (channel : Channel A) : Type 0 where
  pub pending-bounded : (n : ℕ) → channel.pending (channel.bounded n) ≡ []
  pub pending-try_send :
      (a : A) (q r : channel.Queue)
      → channel.try_send a q ≡ some r
      → channel.pending r ≡ channel.pending q ++ a ∷ []
  pub recv_empty : (q : channel.Queue) → channel.pending q ≡ [] → channel.recv q ≡ none
  pub recv_oldest :
      (a : A) (rest : List A) (q : channel.Queue)
      → channel.pending q ≡ a ∷ rest
      → (r : channel.Queue) × (channel.recv q ≡ some (a, r)) × (channel.pending r ≡ rest)
