-- ===== src/Havens/Session/Streams.antt =====
-- The two loops of a session that is established: what is sent, what is accepted, and in which order.
use earendil.Base.{
  ℕ, zero, suc, ◌≡◌, ◌<◌, refl, sym, ap, ◌∙◌, Bool, true, false, ◌&&◌, List, [], ◌∷◌, ◌++◌, map,
  arith, length, contains, nat_eq, nat_beq, nat_beq_iff, if◌then◌else◌, Bool-cases, inl, inr, ok,
}
use mathlib.Core.List.{append-nil, append_assoc}
use earendil.Crypto.{Bytes, Primitives, IsLawful}
use earendil.Packet.Crypt.{seal, aead_open}
use earendil.Daemon.State.{Endpoint}
use earendil.Havens.Session.{
  HavenMsg, regular, SessionCode, ReplayFilter, running, Session, pad_nonce, down_turn, receive,
}

-- What the filter is known for: `was_added` are the numbers that it accepted. It accepts none twice, and one
-- that is above all of them.
pub record IsReplayFilter (rf : ReplayFilter) : Type 0 where
  pub was_added : rf.Filter → ℕ → Bool
  pub was_added-fresh : (n : ℕ) → was_added rf.fresh n ≡ false
  pub was_added-add :
      (m n : ℕ) (f : rf.Filter)
      → was_added (rf.add n f).1 m ≡ (if (rf.add n f).0 && nat_beq n m then true else was_added f m)
  pub add_once : (n : ℕ) (f : rf.Filter) → (rf.add n f).0 ≡ true → was_added f n ≡ false
  pub add_newest :
      (n : ℕ) (f : rf.Filter) → ((m : ℕ) → was_added f m ≡ true → m < n) → (rf.add n f).0 ≡ true

-- The numbers that a filter accepts out of a list, and the filter after it.
unfoldable pub accepted : (rf : ReplayFilter) → rf.Filter → List ℕ → List ℕ × rf.Filter
accepted rf f [] = ([], f)
accepted rf f (n ∷ ns) =
    let rest = accepted rf (rf.add n f).1 ns in
    if (rf.add n f).0 then (n ∷ rest.0, rest.1) else rest

-- No number is there twice.
abbrev pub NoRepeats : List ℕ → Type 0
NoRepeats [] = Unit
NoRepeats (n ∷ ns) = (contains n ns ≡ false) × NoRepeats ns

abbrev pub AreAmong : List ℕ → List ℕ → Type 0
AreAmong [] ns = Unit
AreAmong (m ∷ ms) ns = (contains m ns ≡ true) × AreAmong ms ns

AreAmong-contains :
    (ms ns : List ℕ) → ((m : ℕ) → contains m ms ≡ true → contains m ns ≡ true) → AreAmong ms ns
unfolding contains
AreAmong-contains [] ns h = tt
AreAmong-contains (m ∷ ms) ns h =
    (h m (ground (arith, nat_beq_iff m m)), AreAmong-contains ms ns λ k e. h k (ground (arith, e)))

module _ (rf : ReplayFilter) (filter : IsReplayFilter rf) where
  -- What was accepted before is not accepted again.
  accepted_new :
      (f : rf.Filter) (ns : List ℕ) (m : ℕ)
      → filter.was_added f m ≡ true
      → contains m (accepted rf f ns).0 ≡ false
  unfolding accepted contains
  accepted_new f [] m h = refl
  accepted_new f (n ∷ ns) m h = elim (Bool-cases (rf.add n f).0) [
    | inl e ↦ ground (
      arith,
      e,
      filter.add_once n f e,
      nat_beq_iff n m,
      nat_beq_iff m n,
      filter.was_added-add m n f,
      accepted_new (rf.add n f).1 ns m,
    )
    | inr e ↦ ground (arith, e, filter.was_added-add m n f, accepted_new (rf.add n f).1 ns m)
  ]

  accepted-NoRepeats : (f : rf.Filter) (ns : List ℕ) → NoRepeats (accepted rf f ns).0
  unfolding accepted
  accepted-NoRepeats f [] = tt
  accepted-NoRepeats f (n ∷ ns) = elim (Bool-cases (rf.add n f).0) [
    | inl e ↦
        let there : filter.was_added (rf.add n f).1 n ≡ true =
          ground (arith, e, nat_beq_iff n n, filter.was_added-add n n f) in
        rw (accepted, e)
          (accepted_new (rf.add n f).1 ns n there, accepted-NoRepeats (rf.add n f).1 ns)
    | inr e ↦ rw (accepted, e) (accepted-NoRepeats (rf.add n f).1 ns)
  ]

  accepted_from :
      (f : rf.Filter) (ns : List ℕ) (m : ℕ)
      → contains m (accepted rf f ns).0 ≡ true
      → contains m ns ≡ true
  unfolding accepted contains
  accepted_from f [] m h = h
  accepted_from f (n ∷ ns) m h = elim (Bool-cases (rf.add n f).0) [
    | inl e ↦ ground (arith, e, h, nat_beq_iff n m, accepted_from (rf.add n f).1 ns m)
    | inr e ↦ ground (arith, e, h, nat_beq_iff n m, accepted_from (rf.add n f).1 ns m)
  ]

  accepted-AreAmong : (f : rf.Filter) (ns : List ℕ) → AreAmong (accepted rf f ns).0 ns
  accepted-AreAmong f ns = AreAmong-contains (accepted rf f ns).0 ns (accepted_from f ns)

-- `receive` as often as there are messages.
unfoldable pub receives :
    (prim : Primitives) (code : SessionCode) (rf : ReplayFilter) → ℕ → Session rf → Session rf
receives prim code rf zero s = s
receives prim code rf (suc n) s = receives prim code rf n (receive prim code rf s)

-- A body as its sender seals it.
abbrev pub sealed : Primitives → Bytes → ℕ → Bytes → HavenMsg
sealed prim key n body = regular n (seal prim key (pad_nonce n) body)

-- A session after messages that came in.
abbrev pub after_receiving :
    {rf : ReplayFilter}
    → Session rf
    → Bytes
    → Bytes
    → ℕ
    → rf.Filter
    → List (Bytes × Endpoint)
    → Session rf
after_receiving s ek dk nonce seen inbox = record s {
  phase = running ek dk nonce seen;
  recv_incoming = [];
  inbox = inbox;
}

pub session_eq :
    {rf : ReplayFilter} (s : Session rf) (ek dk : Bytes) (nonce : ℕ) (seen : rf.Filter)
    (inbox : List (Bytes × Endpoint))
    → s.phase ≡ running ek dk nonce seen
    → s.recv_incoming ≡ []
    → s.inbox ≡ inbox
    → s ≡ after_receiving s ek dk nonce seen inbox
session_eq s ek dk nonce seen inbox p q r i = record s {
  phase = p i;
  recv_incoming = q i;
  inbox = r i;
}

module _ (prim : Primitives) (lawful : IsLawful prim) (code : SessionCode) (rf : ReplayFilter) where
  open_sealed :
      (key : Bytes) (n : ℕ) (body : Bytes)
      → aead_open prim key (pad_nonce n) (seal prim key (pad_nonce n) body) ≡ ok body
  unfolding aead_open seal
  open_sealed key n body = rw (lawful.decrypt-encrypt key (pad_nonce n) body)

  -- One genuine message.
  pub receive-sealed :
      (s : Session rf) (ek dk : Bytes) (nonce : ℕ) (seen : rf.Filter) (n : ℕ) (body : Bytes)
      (rest : List HavenMsg)
      → s.phase ≡ running ek dk nonce seen
      → s.recv_incoming ≡ sealed prim dk n body ∷ rest
      → receive prim code rf s ≡ record s {
        phase = running ek dk nonce (rf.add n seen).1;
        recv_incoming = rest;
        inbox = if (rf.add n seen).0 then s.inbox ++ (body, s.remote) ∷ [] else s.inbox;
      }
  unfolding receive down_turn
  receive-sealed s ek dk nonce seen n body rest p q =
      rw (q, p)
        (elim (Bool-cases (rf.add n seen).0) [
          | inl e ↦ rw (down_turn, e) (rw (open_sealed dk n body) refl)
          | inr e ↦ rw (down_turn, e) refl
        ])

  -- Genuine messages in any order, with losses and repetitions.
  pub receives_lem :
      (body : ℕ → Bytes) (ns : List ℕ) (s : Session rf) (ek dk : Bytes) (nonce : ℕ)
      (seen : rf.Filter)
      → s.phase ≡ running ek dk nonce seen
      → s.recv_incoming ≡ map (λ n. sealed prim dk n (body n)) ns
      → receives prim code rf (length ns) s
        ≡ after_receiving s ek dk nonce
            (accepted rf seen ns).1
            (s.inbox ++ map (λ n. (body n, s.remote)) (accepted rf seen ns).0)
  unfolding receives accepted
  receives_lem body [] s ek dk nonce seen p q =
      session_eq s ek dk nonce seen (s.inbox ++ []) p q (sym (append-nil s.inbox))
  receives_lem body (n ∷ ns) s ek dk nonce seen p q =
      ap (receives prim code rf (length ns))
        (receive-sealed s ek dk nonce seen n (body n) (map (λ n. sealed prim dk n (body n)) ns) p q)
      ∙ receives_lem body ns _ ek dk nonce (rf.add n seen).1 refl refl
      ∙ elim (Bool-cases (rf.add n seen).0) [
        | inl e ↦
            rw (accepted, e)
              (ap (after_receiving s ek dk nonce (accepted rf (rf.add n seen).1 ns).1)
                (append_assoc s.inbox ((body n, s.remote) ∷ []) _))
        | inr e ↦ rw (accepted, e) refl
      ]

  -- Whatever the network does to the genuine messages of an established session, be it reordering, loss or
  -- repetition: the session keeps running, and it delivers the bodies of some of the messages that came in,
  -- each of them once, as from its peer.
  pub receives_once :
      IsReplayFilter rf
      → (body : ℕ → Bytes) (ns : List ℕ) (s : Session rf) (ek dk : Bytes) (nonce : ℕ)
        (seen : rf.Filter)
      → s.phase ≡ running ek dk nonce seen
      → s.recv_incoming ≡ map (λ n. sealed prim dk n (body n)) ns
      → let t = receives prim code rf (length ns) s in
        (taken : List ℕ) × (later : rf.Filter) × (t.phase ≡ running ek dk nonce later)
        × (t.inbox ≡ s.inbox ++ map (λ n. (body n, s.remote)) taken)
        × NoRepeats taken
        × AreAmong taken ns
  receives_once filter body ns s ek dk nonce seen p q =
      let done = receives_lem body ns s ek dk nonce seen p q in
      (
        (accepted rf seen ns).0,
        (accepted rf seen ns).1,
        ap (λ (t : Session rf). t.phase) done,
        ap (λ (t : Session rf). t.inbox) done,
        accepted-NoRepeats rf filter seen ns,
        accepted-AreAmong rf filter seen ns,
      )
