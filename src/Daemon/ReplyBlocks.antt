-- ===== src/Daemon/ReplyBlocks.antt =====
-- src/daemon/reply_block_store.rs: the reply blocks that others gave us, the newest used first.
use earendil.Base.{
  ℕ, ◌-◌, ◌≡◌, ◌≤◌, ◌<◌, refl, inl, inr, Option, none, some, List, [], ◌∷◌, ◌++◌, arith, length,
  length-append, nat_beq, nat_beq_iff, if◌then◌else◌, Option-cases, Bool-cases,
}
use earendil.Packet.Types.{ReplyBlock}
use earendil.Daemon.External.{LruCache, IsLruCache, or_else}

pub record ReplyBlockDeque : Type 0 where
  pub deque : List ReplyBlock
  pub capacity : ℕ

module _ {ℓ} {A : Type ℓ} where
  -- VecDeque::pop_front, without the item
  unfoldable pub pop_front : List A → List A
  pop_front [] = []
  pop_front (x ∷ xs) = xs

  -- VecDeque::pop_back: the last item and the rest
  unfoldable pub pop_back : List A → Option A × List A
  pop_back [] = (none, [])
  pop_back (x ∷ []) = (some x, [])
  pop_back (x ∷ y ∷ xs) = let last = pop_back (y ∷ xs) in (last.0, x ∷ last.1)

  pub pop_back-append : (xs : List A) (x : A) → pop_back (xs ++ x ∷ []) ≡ (some x, xs)
  unfolding pop_back
  pop_back-append [] x = refl
  pop_back-append (y ∷ []) x = refl
  pop_back-append (y ∷ z ∷ xs) x = rw (pop_back-append (z ∷ xs) x) refl

-- ReplyBlockDeque::new
unfoldable pub new_deque : ℕ → ReplyBlockDeque
new_deque capacity = record { deque = []; capacity = capacity }

-- What an insertion leaves of the deque.
abbrev pub deque_kept : ReplyBlockDeque → List ReplyBlock
deque_kept self =
    if nat_beq (length self.deque) self.capacity then pop_front self.deque else self.deque

-- ReplyBlockDeque::insert
unfoldable pub deque_insert : ReplyBlock → ReplyBlockDeque → ReplyBlockDeque
deque_insert item self = record self { deque = deque_kept self ++ item ∷ [] }

-- ReplyBlockDeque::pop
unfoldable pub deque_pop : ReplyBlockDeque → Option ReplyBlock × ReplyBlockDeque
unfolding pop_back
deque_pop self = let last = pop_back self.deque in (last.0, record self { deque = last.1 })

abbrev pub deque_capacity : ℕ
deque_capacity = 1000

abbrev pub store_capacity : ℕ
store_capacity = 5000

module _ (lru : LruCache ReplyBlockDeque) where
  -- ReplyBlockStore::new
  unfoldable pub new_store : lru.Cache
  new_store = lru.empty store_capacity

  -- ReplyBlockStore::insert
  unfoldable pub store_insert : ℕ → ReplyBlock → lru.Cache → lru.Cache
  unfolding new_deque deque_insert
  store_insert fp rb self =
      lru.get_or_insert_mut fp (new_deque deque_capacity) (deque_insert rb) self

  -- ReplyBlockStore::pop
  unfoldable pub store_pop : ℕ → lru.Cache → Option ReplyBlock × lru.Cache
  unfolding deque_pop
  store_pop fp self = elim (lru.peek fp self) [
    | none ↦ (none, self)
    | some deque ↦ ((deque_pop deque).0, lru.get_mut fp (λ d. (deque_pop d).1) self)
  ]

  -- Every deque has the capacity that the store gives it, and keeps it.
  abbrev pub IsBounded : lru.Cache → Type 0
  IsBounded self =
      (fp : ℕ) (d : ReplyBlockDeque)
      → lru.peek fp self ≡ some d
      → (d.capacity ≡ deque_capacity) × (length d.deque ≤ deque_capacity)

length-pop_front : {A : Type 0} (xs : List A) → length (pop_front xs) ≡ length xs - 1
unfolding pop_front
length-pop_front [] = refl
length-pop_front (x ∷ xs) = omega arith

-- A deque within its capacity stays within it.
pub deque_insert_bounds :
    (item : ReplyBlock) (d : ReplyBlockDeque)
    → 0 < d.capacity
    → length d.deque ≤ d.capacity
    → ((deque_insert item d).capacity ≡ d.capacity)
      × (length (deque_insert item d).deque ≤ d.capacity)
unfolding deque_insert
deque_insert_bounds item d pos h = ground (
  arith,
  length-append (pop_front d.deque) (item ∷ []),
  length-append d.deque (item ∷ []),
  length-pop_front d.deque,
)

length-pop_back : {A : Type 0} (xs : List A) → length (pop_back xs).1 ≤ length xs
unfolding pop_back
length-pop_back [] = omega arith
length-pop_back (x ∷ []) = omega arith
length-pop_back (x ∷ y ∷ xs) = omega (arith, length-pop_back (y ∷ xs))

module _ (lru : LruCache ReplyBlockDeque) (is : IsLruCache lru) where
  -- The block that was stored last for a fingerprint is the one taken next.
  pub store_pop-store_insert :
      (fp : ℕ) (rb : ReplyBlock) (store : lru.Cache)
      → (store_pop lru fp (store_insert lru fp rb store)).0 ≡ some rb
  unfolding store_pop store_insert deque_pop deque_insert
  store_pop-store_insert fp rb store = ground (
    arith,
    is.peek-get_or_insert_mut fp (new_deque deque_capacity) (deque_insert rb) store,
    pop_back-append (deque_kept (or_else (new_deque deque_capacity) (lru.peek fp store))) rb,
  )

  -- No deque of the store ever grows beyond its capacity.
  pub store_insert-IsBounded :
      (fp : ℕ) (rb : ReplyBlock) (store : lru.Cache)
      → IsBounded lru store
      → IsBounded lru (store_insert lru fp rb store)
  unfolding store_insert new_deque
  store_insert-IsBounded fp rb store b j d h = elim (Bool-cases (nat_beq fp j)) [
    | inl same ↦
        let at : fp ≡ j = (nat_beq_iff fp j).0 same in
        let stored =
          is.peek-get_or_insert_mut fp (new_deque deque_capacity) (deque_insert rb) store in
        elim (Option-cases (lru.peek fp store)) [
          | inl fresh ↦
              ground
                (arith, at, stored, fresh, h, deque_insert_bounds rb (new_deque deque_capacity))
          | inr (old, e) ↦ ground (arith, at, stored, e, h, b fp old e, deque_insert_bounds rb old)
        ]
    | inr other ↦
        elim (is.peek-get_or_insert_mut_other j fp (new_deque deque_capacity) (deque_insert rb)
          store (λ at. ground (arith, nat_beq_iff fp j))) [
            | inl kept ↦ b j d (ground (arith, kept, h))
            | inr gone ↦ absurd (ground (arith, gone, h))
          ]
  ]

  pub store_pop-IsBounded :
      (fp : ℕ) (store : lru.Cache) → IsBounded lru store → IsBounded lru (store_pop lru fp store).1
  unfolding store_pop deque_pop
  store_pop-IsBounded fp store b j d h = elim (Option-cases (lru.peek fp store)) [
    | inl none_there ↦ b j d (ground (arith, none_there, h))
    | inr (old, e) ↦ elim (Option-cases (lru.peek j store)) [
      | inl none_there ↦
          absurd
            (ground (arith, is.peek-get_mut j fp (λ x. (deque_pop x).1) store, e, none_there, h))
      | inr (was, f) ↦ ground (
        arith,
        is.peek-get_mut j fp (λ x. (deque_pop x).1) store,
        e,
        f,
        h,
        b j was f,
        length-pop_back was.deque,
      )
    ]
  ]
