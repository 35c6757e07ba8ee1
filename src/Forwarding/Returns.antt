-- ===== src/Forwarding/Returns.antt =====
-- What comes back through a socket goes to the source whose messages went out through it.
use earendil.Base.{
  ℕ, ◌≡◌, ◌≢◌, ◌⊎◌, arith, refl, ap, ◌∙◌, subst, Option, none, some, List, [], ◌∷◌, ◌++◌, Eq, Map,
  get, nat_eq, pair_eq, Option-cases, inl, inr,
}
use earendil.Crypto.{Bytes}
use earendil.Forwarding.{
  ForwardError, Forwarder, new_forwarder, forward_up, forward_down, forget_source,
}
use earendil.Forwarding.Sorted.{
  OwnedBy, Returns, IsSorted, forward_up-IsSorted, forget_source-IsSorted, forward_down-IsSorted,
}

-- What happens on one side: a source sends, something comes back through a socket, or the cache drops a source.
pub data Event (K : Type 0) : Type 0 where
  sends : (no_bind no_send : Option ForwardError) (source : K) (message : Bytes) → Event K
  comes_back : (socket : ℕ) (message : Bytes) → Event K
  forgets : (source : K) → Event K

module _ {K : Type 0} ⦃keys : Eq K⦄ where
  unfoldable pub forwards : List (Event K) → Forwarder K → Forwarder K
  forwards [] s = s
  forwards (sends no_bind no_send source message ∷ events) s =
      forwards events (forward_up no_bind no_send source message s).1
  forwards (comes_back socket message ∷ events) s = forwards events (forward_down socket message s)
  forwards (forgets source ∷ events) s = forwards events (forget_source source s)

  forwards-IsSorted :
      (events : List (Event K)) (s : Forwarder K) → IsSorted s → IsSorted (forwards events s)
  unfolding forwards
  forwards-IsSorted [] s sorted = sorted
  forwards-IsSorted (sends no_bind no_send source message ∷ events) s sorted =
      forwards-IsSorted events _ (forward_up-IsSorted no_bind no_send source message s sorted)
  forwards-IsSorted (comes_back socket message ∷ events) s sorted =
      forwards-IsSorted events _ (forward_down-IsSorted socket message s sorted)
  forwards-IsSorted (forgets source ∷ events) s sorted =
      forwards-IsSorted events _ (forget_source-IsSorted source s sorted)

  new_forwarder-IsSorted : IsSorted {K = K} new_forwarder
  unfolding new_forwarder get
  new_forwarder-IsSorted = record {
    owned = λ source socket h. absurd (cc);
    below = λ socket source h. absurd (cc);
    used = tt;
    returns = tt;
  }

  -- A message of this source went out through this socket.
  abbrev pub WentThrough : K → ℕ → List (K × ℕ × Bytes) → Type 0
  WentThrough source socket [] = ⊥
  WentThrough source socket (x ∷ xs) =
      ((x.0 ≡ source) × (x.1 ≡ socket)) ⊎ WentThrough source socket xs

  WentThrough-OwnedBy :
      (source : K) (socket : ℕ) (owners : Map ℕ K) (xs : List (K × ℕ × Bytes))
      → WentThrough source socket xs
      → Returns owners xs
      → OwnedBy source (get socket owners)
  WentThrough-OwnedBy source socket owners [] went h = absurd went
  WentThrough-OwnedBy source socket owners (x ∷ xs) (inl (a, b)) h =
      subst (λ k. OwnedBy k (get socket owners)) a (subst (λ n. OwnedBy x.0 (get n owners)) b h.0)
  WentThrough-OwnedBy source socket owners (x ∷ xs) (inr went) h =
      WentThrough-OwnedBy source socket owners xs went h.1

  given_none :
      (socket : ℕ) (reply : Bytes) (s : Forwarder K)
      → get socket s.owners ≡ none
      → forward_down socket reply s ≡ s
  unfolding forward_down
  given_none socket reply s e = rw (forward_down, e) refl

  given_owner :
      (socket : ℕ) (reply : Bytes) (s : Forwarder K) (owner : K)
      → get socket s.owners ≡ some owner
      → (forward_down socket reply s).downward ≡ s.downward ++ (owner, reply) ∷ []
  unfolding forward_down
  given_owner socket reply s owner e = rw (forward_down, e) refl

  -- Whatever happened since a forwarder started: if a message of a source went out through a socket, what comes
  -- back through that socket is given to this source, behind what was given back before, or the table has the
  -- source no longer with this socket, the socket has no down loop, and nothing is given to anyone.
  pub forward_down-forwards :
      (events : List (Event K)) (source : K) (socket : ℕ) (reply : Bytes)
      → WentThrough source socket (forwards events new_forwarder).upward
      → let s = forwards events new_forwarder in
        ((forward_down socket reply s).downward ≡ s.downward ++ (source, reply) ∷ [])
        ⊎ ((get source s.table ≢ some socket)
            × (get socket s.owners ≡ none)
            × (forward_down socket reply s ≡ s))
  forward_down-forwards events source socket reply went =
      let s = forwards events new_forwarder in
      let sorted = forwards-IsSorted events new_forwarder new_forwarder-IsSorted in
      let mine = WentThrough-OwnedBy source socket s.owners s.upward went sorted.returns in
      elim (Option-cases (get socket s.owners)) [
        | inl e ↦ inr (
          λ there. absurd (ground (arith, sorted.owned source socket there, e)),
          e,
          given_none socket reply s e,
        )
        | inr (owner, e) ↦ inl (
            given_owner socket reply s owner e
            ∙ ap (λ k. s.downward ++ (k, reply) ∷ []) (subst (OwnedBy source) e mine))
      ]
