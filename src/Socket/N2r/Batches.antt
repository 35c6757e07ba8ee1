-- ===== src/Socket/N2r/Batches.antt =====
-- How `send_batcher_loop` of src/socket/n2r_socket.rs cuts what it sends into messages.
use mathlib.Core.List.{flatten, append-nil, append_assoc}
use earendil.Base.{
  ℕ, zero, suc, ◌+◌, ◌≡◌, ◌≤◌, ◌<◌, refl, sym, ap, ◌∙◌, true, false, List, [], ◌∷◌, ◌++◌, arith,
  length, ltb, if◌then◌else◌, Map, get, get-insert, nat_eq, pair_eq, pair_beq_iff, Bool-cases, inl,
  inr, subst, ◌==◌,
}
use earendil.Crypto.{Bytes}
use earendil.Daemon.Action.{◌>>=◌, return, fail}
use earendil.Daemon.External.{or_else}
use earendil.Daemon.State.{World, Endpoint, out_of_fuel}
use earendil.Daemon.Send.{Handler, send_n2r}
use earendil.Socket.N2r.{limit, overhead, take_subbatch, enqueue, enqueue_all, send_batch}

-- What a subbatch counts for.
abbrev pub size : List Bytes → ℕ
size [] = 0
size (b ∷ bs) = length b + overhead + size bs

-- No body is too long for a message of its own.
abbrev pub AreShort : List Bytes → Type 0
AreShort [] = Unit {0}
AreShort (b ∷ bs) = (length b + overhead ≤ limit) × AreShort bs

-- Subbatches that are not empty and within the limit.
abbrev pub AreSubbatches : List (List Bytes) → Type 0
AreSubbatches [] = Unit {0}
AreSubbatches (sub ∷ subs) = (0 < length sub) × (size sub ≤ limit) × AreSubbatches subs

take_subbatch_lem :
    (cur : ℕ) (batch : List Bytes)
    → cur ≤ limit
    → ((take_subbatch cur batch).0 ++ (take_subbatch cur batch).1 ≡ batch)
      × (cur + size (take_subbatch cur batch).0 ≤ limit)
      × (length (take_subbatch cur batch).1 ≤ length batch)
unfolding take_subbatch
take_subbatch_lem cur [] h = (refl, omega arith, omega arith)
take_subbatch_lem cur (b ∷ batch) h = elim (Bool-cases (ltb limit (cur + length b + overhead))) [
  | inl full ↦ rw (full, take_subbatch) (refl, omega arith, omega arith)
  | inr room ↦
      let (split, fits, fewer) =
        take_subbatch_lem (cur + length b + overhead) batch (ground arith) in
      rw (room, take_subbatch) (ap (◌∷◌ b) split, omega arith, omega arith)
]

-- A short body is taken.
takes_first :
    (b : Bytes) (batch : List Bytes)
    → length b + overhead ≤ limit
    → (0 < length (take_subbatch 0 (b ∷ batch)).0)
      × (length (take_subbatch 0 (b ∷ batch)).1 ≤ length batch)
unfolding take_subbatch
takes_first b batch h =
    let room : ltb limit (0 + length b + overhead) ≡ false = ground arith in
    let (split, fits, fewer) = take_subbatch_lem (0 + length b + overhead) batch (omega arith) in
    rw (room, take_subbatch) (omega arith, fewer)

AreShort-append : (xs ys : List Bytes) → AreShort (xs ++ ys) → AreShort ys
AreShort-append [] ys h = h
AreShort-append (x ∷ xs) ys h = AreShort-append xs ys h.1

module _ (world : World) (isk dock : ℕ) (endpoint : Endpoint) where
  -- One message after the other.
  abbrev pub send_each : List (List Bytes) → Handler world (Unit {0})
  send_each [] = return tt
  send_each (sub ∷ subs) = send_n2r world isk dock endpoint.0 endpoint.1 sub >>= λ _. send_each subs

  -- A batch of bodies of at most 8182 bytes each is cut into messages that are not empty, keep to the limit and
  -- together hold the bodies in their order; within as many rounds as there are bodies the loop ends as giving
  -- these messages to send_n2r one after the other does, up to the first that it refuses, if it refuses one.
  pub send_batch_lem :
      (fuel : ℕ) (batch : List Bytes)
      → length batch ≤ fuel
      → AreShort batch
      → (subs : List (List Bytes)) × (flatten subs ≡ batch)
        × AreSubbatches subs
        × (send_batch world isk dock fuel endpoint batch ≡ send_each subs)
  unfolding send_batch flatten
  send_batch_lem fuel [] enough short = ([], refl, tt, refl)
  send_batch_lem zero (b ∷ batch) enough short = absurd (omega arith)
  send_batch_lem (suc fuel) (b ∷ batch) enough short =
      let cut = take_subbatch 0 (b ∷ batch) in
      let (split, fits, _) = take_subbatch_lem 0 (b ∷ batch) (omega arith) in
      let (some_taken, fewer) = takes_first b batch short.0 in
      let (subs, whole, good, sent) =
        send_batch_lem fuel cut.1 (omega arith)
          (AreShort-append cut.0 cut.1 (subst AreShort (sym split) short)) in
      (
        cut.0 ∷ subs,
        ap (λ t. cut.0 ++ t) whole ∙ split,
        (some_taken, omega (arith, fits), good),
        ap (λ k. send_n2r world isk dock endpoint.0 endpoint.1 cut.0 >>= λ _. k) sent,
      )

  -- Empty messages until the fuel is gone.
  abbrev pub send_empty : ℕ → Handler world (Unit {0})
  send_empty zero = fail out_of_fuel
  send_empty (suc fuel) = send_n2r world isk dock endpoint.0 endpoint.1 [] >>= λ _. send_empty fuel

  -- A body of more than 8182 bytes is never taken out of its batch: whatever the number of rounds, the loop
  -- sends empty messages, until one of them cannot be sent.
  pub send_batch_stuck :
      (fuel : ℕ) (first : Bytes) (batch : List Bytes)
      → limit < length first + overhead
      → send_batch world isk dock fuel endpoint (first ∷ batch) ≡ send_empty fuel
  unfolding send_batch take_subbatch
  send_batch_stuck zero first batch long = refl
  send_batch_stuck (suc fuel) first batch long =
      let full : ltb limit (0 + length first + overhead) ≡ true = ground arith in
      rw full (
        ap (λ k. send_n2r world isk dock endpoint.0 endpoint.1 [] >>= λ _. k)
          (send_batch_stuck fuel first batch long))

-- The bodies for one destination, in order.
abbrev pub bodies_to : Endpoint → List (Bytes × Endpoint) → List Bytes
bodies_to dest [] = []
bodies_to dest ((msg, to) ∷ items) =
    if to == dest then msg ∷ bodies_to dest items else bodies_to dest items

enqueue_all_lem :
    (dest : Endpoint) (items : List (Bytes × Endpoint)) (batches : Map Endpoint (List Bytes))
    → or_else [] (get dest (enqueue_all items batches))
      ≡ or_else [] (get dest batches) ++ bodies_to dest items
unfolding enqueue_all enqueue
enqueue_all_lem dest [] batches = sym (append-nil (or_else [] (get dest batches)))
enqueue_all_lem dest ((msg, to) ∷ items) batches = elim (Bool-cases (to == dest)) [
  | inl same ↦
      let old = or_else [] (get to batches) in
      ground (
        arith,
        (pair_beq_iff to dest).0 same,
        enqueue_all_lem dest items (enqueue (msg, to) batches),
        get-insert to dest (old ++ msg ∷ []) batches,
        append_assoc old (msg ∷ []) (bodies_to dest items),
      )
  | inr other ↦ ground (
    arith,
    enqueue_all_lem dest items (enqueue (msg, to) batches),
    get-insert to dest (or_else [] (get to batches) ++ msg ∷ []) batches,
  )
]

-- A round sends to each destination what was queued for it, in the order of the queue.
pub batch_of :
    (dest : Endpoint) (items : List (Bytes × Endpoint))
    → or_else [] (get dest (enqueue_all items [])) ≡ bodies_to dest items
unfolding get
batch_of dest items = enqueue_all_lem dest items []
