-- ===== src/Forwarding/Sorted.antt =====
-- Each socket is one source's, or was: the invariant of a forwarder.
use earendil.Base.{
  ℕ, ◌+◌, ◌≡◌, ◌<◌, refl, sym, subst, Option, none, some, List, [], ◌∷◌, ◌++◌, arith, Eq, ◌==◌, Map,
  get, insert, remove, get-insert, get-remove, nat_eq, nat_beq, nat_beq_iff, pair_eq, Option-cases,
  Bool-cases, inl, inr,
}
use earendil.Crypto.{Bytes}
use earendil.Daemon.Action.{◌>>=◌}
use earendil.Forwarding.{
  ForwardError, Forwarder, socket_for, send_through, forward_up, forward_down, forget_source,
}

module _ {K : Type 0} ⦃keys : Eq K⦄ where
  -- A socket has no owner, or this one.
  abbrev pub OwnedBy : K → Option K → Type 0
  OwnedBy source none = Unit
  OwnedBy source (some owner) = owner ≡ source

  -- Each message that went out did so through a socket that is its source's, or gone.
  abbrev pub Returns : Map ℕ K → List (K × ℕ × Bytes) → Type 0
  Returns owners [] = Unit
  Returns owners ((source, socket, message) ∷ rest) =
      OwnedBy source (get socket owners) × Returns owners rest

  abbrev pub AreBelow : ℕ → List (K × ℕ × Bytes) → Type 0
  AreBelow next [] = Unit
  AreBelow next ((source, socket, message) ∷ rest) = (socket < next) × AreBelow next rest

  pub record IsSorted (s : Forwarder K) : Type 0 where
    pub owned :
        (source : K) (socket : ℕ)
        → get source s.table ≡ some socket
        → get socket s.owners ≡ some source
    pub below :
        (socket : ℕ) (source : K) → get socket s.owners ≡ some source → socket < s.next_socket
    pub used : AreBelow s.next_socket s.upward
    pub returns : Returns s.owners s.upward

  pub AreBelow-append :
      (next : ℕ) (xs : List (K × ℕ × Bytes)) (source : K) (socket : ℕ) (message : Bytes)
      → AreBelow next xs
      → socket < next
      → AreBelow next (xs ++ (source, socket, message) ∷ [])
  AreBelow-append next [] source socket message h k = (k, tt)
  AreBelow-append next (x ∷ xs) source socket message h k =
      (h.0, AreBelow-append next xs source socket message h.1 k)

  pub AreBelow-suc :
      (next : ℕ) (xs : List (K × ℕ × Bytes)) → AreBelow next xs → AreBelow (next + 1) xs
  AreBelow-suc next [] h = tt
  AreBelow-suc next (x ∷ xs) h = (omega (arith, h.0), AreBelow-suc next xs h.1)

  pub Returns-append :
      (owners : Map ℕ K) (xs : List (K × ℕ × Bytes)) (source : K) (socket : ℕ) (message : Bytes)
      → Returns owners xs
      → get socket owners ≡ some source
      → Returns owners (xs ++ (source, socket, message) ∷ [])
  Returns-append owners [] source socket message h k = (rw k refl, tt)
  Returns-append owners (x ∷ xs) source socket message h k =
      (h.0, Returns-append owners xs source socket message h.1 k)

  -- A new socket is none of those that were used.
  pub Returns-insert :
      (owners : Map ℕ K) (next : ℕ) (new : K) (xs : List (K × ℕ × Bytes))
      → Returns owners xs
      → AreBelow next xs
      → Returns (insert next new owners) xs
  Returns-insert owners next new [] h b = tt
  Returns-insert owners next new (x ∷ xs) h b =
      let other : get x.1 (insert next new owners) ≡ get x.1 owners =
        ground (arith, b.0, get-insert next x.1 new owners, nat_beq_iff next x.1) in
      (subst (OwnedBy x.0) (sym other) h.0, Returns-insert owners next new xs h.1 b.1)

  pub Returns-remove :
      (owners : Map ℕ K) (gone : ℕ) (xs : List (K × ℕ × Bytes))
      → Returns owners xs
      → Returns (remove gone owners) xs
  Returns-remove owners gone [] h = tt
  Returns-remove owners gone (x ∷ xs) h = (
    elim (Bool-cases (nat_beq gone x.1)) [
      | inl e ↦
          let none_left : get x.1 (remove gone owners) ≡ none =
            ground (arith, e, get-remove gone x.1 owners) in
          subst (OwnedBy x.0) (sym none_left) tt
      | inr e ↦
          let same : get x.1 (remove gone owners) ≡ get x.1 owners =
            ground (arith, e, get-remove gone x.1 owners) in
          subst (OwnedBy x.0) (sym same) h.0
    ],
    Returns-remove owners gone xs h.1,
  )

  pub send_through-IsSorted :
      (failure : Option ForwardError) (source : K) (message : Bytes) (socket : ℕ) (s : Forwarder K)
      → get socket s.owners ≡ some source
      → IsSorted s
      → IsSorted (send_through failure source message socket s).1
  unfolding send_through
  send_through-IsSorted (some e) source message socket s mine sorted = sorted
  send_through-IsSorted none source message socket s mine sorted = record {
    owned = sorted.owned;
    below = sorted.below;
    used =
        AreBelow-append s.next_socket s.upward source socket message sorted.used
          (sorted.below socket source mine);
    returns = Returns-append s.owners s.upward source socket message sorted.returns mine;
  }

  pub bound : K → Forwarder K → Forwarder K
  bound source s = record s {
    table = insert source s.next_socket s.table;
    owners = insert s.next_socket source s.owners;
    next_socket = s.next_socket + 1;
  }

  pub bound-IsSorted :
      (source : K) (s : Forwarder K)
      → get source s.table ≡ none
      → IsSorted s
      → IsSorted (bound source s)
  unfolding bound
  bound-IsSorted source s new sorted = record {
    owned = λ k n h. elim (Bool-cases (source == k)) [
      | inl e ↦
          let same : source ≡ k = (keys.decides source k).0 e in
          let here : s.next_socket ≡ n =
            ground (arith, h, e, get-insert source k s.next_socket s.table) in
          ground (
            arith,
            here,
            same,
            get-insert s.next_socket n source s.owners,
            nat_beq_iff s.next_socket n,
          )
      | inr e ↦
          let there =
            sorted.owned k n (ground (arith, h, e, get-insert source k s.next_socket s.table)) in
          ground (
            arith,
            there,
            sorted.below n k there,
            get-insert s.next_socket n source s.owners,
            nat_beq_iff s.next_socket n,
          )
    ];
    below = λ n k h. elim (Bool-cases (nat_beq s.next_socket n)) [
      | inl e ↦ omega (arith, (nat_beq_iff s.next_socket n).0 e)
      | inr e ↦
          let less =
            sorted.below n k (ground (arith, h, e, get-insert s.next_socket n source s.owners)) in
          omega (arith, less)
    ];
    used = AreBelow-suc s.next_socket s.upward sorted.used;
    returns = Returns-insert s.owners s.next_socket source s.upward sorted.returns sorted.used;
  }

  pub bound_owner :
      (source : K) (s : Forwarder K) → get s.next_socket (bound source s).owners ≡ some source
  unfolding bound
  bound_owner source s = ground (
    arith,
    get-insert s.next_socket s.next_socket source s.owners,
    nat_beq_iff s.next_socket s.next_socket,
  )

  pub forward_up-IsSorted :
      (no_bind no_send : Option ForwardError) (source : K) (message : Bytes) (s : Forwarder K)
      → IsSorted s
      → IsSorted (forward_up no_bind no_send source message s).1
  unfolding forward_up socket_for bound ◌>>=◌
  forward_up-IsSorted no_bind no_send source message s sorted =
      elim (Option-cases (get source s.table)) [
        | inr (socket, e) ↦
            rw (socket_for, e)
              (send_through-IsSorted no_send source message socket s (sorted.owned source socket e)
                sorted)
        | inl e ↦ elim (Option-cases no_bind) [
          | inr (x, f) ↦ rw (socket_for, e, f) sorted
          | inl f ↦
              rw (socket_for, e, f)
                (send_through-IsSorted no_send source message s.next_socket (bound source s)
                  (bound_owner source s) (bound-IsSorted source s e sorted))
        ]
      ]

  pub forget_source-IsSorted :
      (source : K) (s : Forwarder K) → IsSorted s → IsSorted (forget_source source s)
  unfolding forget_source
  forget_source-IsSorted source s sorted = elim (Option-cases (get source s.table)) [
    | inl e ↦ rw (forget_source, e) sorted
    | inr (socket, e) ↦
        rw (forget_source, e)
          (record {
            owned = λ k n h.
                let was : get k s.table ≡ some n = ground (arith, h, get-remove source k s.table) in
                let mine = sorted.owned source socket e in
                ground (
                  arith,
                  h,
                  was,
                  mine,
                  sorted.owned k n was,
                  get-remove source k s.table,
                  keys.decides source k,
                  get-remove socket n s.owners,
                  nat_beq_iff socket n,
                );
            below = λ n k h. sorted.below n k (ground (arith, h, get-remove socket n s.owners));
            used = sorted.used;
            returns = Returns-remove s.owners socket s.upward sorted.returns;
          })
  ]

  pub forward_down-IsSorted :
      (socket : ℕ) (message : Bytes) (s : Forwarder K)
      → IsSorted s
      → IsSorted (forward_down socket message s)
  unfolding forward_down
  forward_down-IsSorted socket message s sorted = elim (Option-cases (get socket s.owners)) [
    | inl e ↦ rw (forward_down, e) sorted
    | inr (source, e) ↦
        rw (forward_down, e)
          (record {
            owned = sorted.owned;
            below = sorted.below;
            used = sorted.used;
            returns = sorted.returns;
          })
  ]
