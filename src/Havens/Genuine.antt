-- ===== src/Havens/Genuine.antt =====
-- The locators that a node keeps and returns, whatever other nodes answer and ask.
use earendil.Base.{
  ℕ, ◌≡◌, subst, inl, inr, Bool, Option, none, some, List, [], ◌∷◌, arith, nat_beq, nat_beq_iff,
  Map, get, insert, remove, get-insert, get-remove, nat_eq, Result, ok, err, panic, Option-cases,
  Result-cases, Bool-cases, map, take,
}
use earendil.Crypto.{Primitives, fingerprint}
use earendil.Topology.Graph.{RelayGraph}
use earendil.Havens.Locators.{
  HavenLocator, RegisterHavenReq, HavenCode, verify_locator, verify_registration,
}
use earendil.Havens.Table.{
  HavenState, DhtError, DhtAnswer, no_answer, nothing_there, refused, located, verify_failed,
  accept_locator, gather, dht_get, rpc_dht_get, dht_key_to_fps, dht_redundancy,
}

abbrev pub start : HavenState
start = record { dht_cache = []; local_dht_shard = []; registered_havens = []; asked = [] }

module _ (prim : Primitives) (code : HavenCode) where
  -- The locator is the one of this fingerprint, signed by it.
  abbrev pub IsGenuine : ℕ → HavenLocator → Type 0
  IsGenuine fp locator =
      (fingerprint prim locator.identity_pk ≡ fp) × (verify_locator prim code locator ≡ ok tt)

  abbrev pub AllGenuine : Map ℕ HavenLocator → Type 0
  AllGenuine m = (fp : ℕ) (locator : HavenLocator) → get fp m ≡ some locator → IsGenuine fp locator

  -- Who is registered has signed a registration.
  abbrev pub AllSigned : Map ℕ (Unit {0}) → Type 0
  AllSigned m =
      (fp : ℕ)
      → get fp m ≡ some tt
      → (reg : RegisterHavenReq) × (fingerprint prim reg.identity_pk ≡ fp)
        × (verify_registration prim code reg ≡ ok tt)

  pub record IsSound (s : HavenState) : Type 0 where
    pub cached : AllGenuine s.dht_cache
    pub sharded : AllGenuine s.local_dht_shard
    pub registered : AllSigned s.registered_havens

  pub insert-AllGenuine :
      (fp : ℕ) (locator : HavenLocator) (m : Map ℕ HavenLocator)
      → IsGenuine fp locator
      → AllGenuine m
      → AllGenuine (insert fp locator m)
  insert-AllGenuine fp locator m genuine all k l h = elim (Bool-cases (nat_beq fp k)) [
    | inl e ↦
        let same : fp ≡ k = (nat_beq_iff fp k).0 e in
        let it : locator ≡ l = ground (arith, h, e, get-insert fp k locator m) in
        subst (λ x. IsGenuine x l) same (subst (IsGenuine fp) it genuine)
    | inr e ↦ all k l (ground (arith, h, e, get-insert fp k locator m))
  ]

  pub remove-AllGenuine :
      (fp : ℕ) (m : Map ℕ HavenLocator) → AllGenuine m → AllGenuine (remove fp m)
  remove-AllGenuine fp m all k l h = all k l (ground (arith, h, get-remove fp k m))

  -- A locator that is returned is genuine.
  abbrev pub Returns : ℕ → Result DhtError (Option HavenLocator) → Type 0
  Returns fp (ok (some locator)) = IsGenuine fp locator
  Returns fp (ok none) = Unit
  Returns fp (err e) = Unit
  Returns fp panic = Unit

  -- What a handler that looks for a locator leaves and returns.
  abbrev pub Finds : ℕ → Result DhtError (Option HavenLocator) × HavenState → Type 0
  Finds fp r = IsSound r.1 × Returns fp r.0

  accept_locator-Finds :
      (fp : ℕ) (locator : HavenLocator) (s : HavenState)
      → IsSound s
      → fingerprint prim locator.identity_pk ≡ fp
      → Finds fp (accept_locator prim code fp locator s)
  unfolding accept_locator
  accept_locator-Finds fp locator s sound same =
      elim (Result-cases (verify_locator prim code locator)) [
        | inl (u, e) ↦
            rw (accept_locator, e)
              (
                record {
                  cached = insert-AllGenuine fp locator s.dht_cache (same, e) sound.cached;
                  sharded = sound.sharded;
                  registered = sound.registered;
                },
                (same, e),
              )
        | inr (inl (x, e)) ↦ rw (accept_locator, e) (sound, tt)
        | inr (inr e) ↦ rw (accept_locator, e) (sound, tt)
      ]

  gather-Finds :
      (fp : ℕ) (retval : Result DhtError (Option HavenLocator)) (results : List DhtAnswer)
      (s : HavenState)
      → IsSound s
      → Returns fp retval
      → Finds fp (gather prim code fp retval results s)
  unfolding gather
  gather-Finds fp retval [] s sound h = (sound, h)
  gather-Finds fp retval (no_answer ∷ results) s sound h = gather-Finds fp _ results s sound tt
  gather-Finds fp retval (refused e ∷ results) s sound h = gather-Finds fp _ results s sound tt
  gather-Finds fp retval (nothing_there ∷ results) s sound h =
      gather-Finds fp retval results s sound h
  gather-Finds fp retval (located locator ∷ results) s sound h =
      elim (Bool-cases (nat_beq (fingerprint prim locator.identity_pk) fp)) [
        | inl e ↦ rw e (
            accept_locator-Finds fp locator s sound
              ((nat_beq_iff (fingerprint prim locator.identity_pk) fp).0 e))
        | inr e ↦ rw e (gather-Finds fp (err verify_failed) results s sound tt)
      ]

  pub start-IsSound : IsSound start
  unfolding get
  start-IsSound = record {
    cached = λ fp l h. absurd (cc);
    sharded = λ fp l h. absurd (cc);
    registered = λ fp h. absurd (cc);
  }

  module _ (rank : ℕ → ℕ → ℕ) (g : RelayGraph) where
    dht_get-Finds :
        (ask : ℕ → DhtAnswer) (arrive : List DhtAnswer → List DhtAnswer) (fp : ℕ) (s : HavenState)
        → IsSound s
        → Finds fp (dht_get prim code rank g ask arrive fp s)
    unfolding dht_get
    dht_get-Finds ask arrive fp s sound = elim (Option-cases (get fp s.dht_cache)) [
      | inl e ↦
          rw (dht_get, e)
            (gather-Finds fp (ok none)
              (arrive (map ask (take dht_redundancy (dht_key_to_fps rank g fp)))) s sound tt)
      | inr (l, e) ↦ rw (dht_get, e) (sound, sound.cached fp l e)
    ]

    -- Whatever the replicas answer, and in whichever order: a lookup for another node in a sound state
    -- leaves the state sound, and a locator that it returns is genuine, that is, it is for the fingerprint
    -- asked for and its signature verifies under the key of that fingerprint.
    pub rpc_dht_get-Finds :
        (ask : ℕ → DhtAnswer) (arrive : List DhtAnswer → List DhtAnswer) (fp : ℕ) (recurse : Bool)
        (s : HavenState)
        → IsSound s
        → Finds fp (rpc_dht_get prim code rank g ask arrive fp recurse s)
    unfolding rpc_dht_get
    rpc_dht_get-Finds ask arrive fp recurse s sound =
        elim (Option-cases (get fp s.local_dht_shard)) [
          | inl e ↦
              rw (rpc_dht_get, e)
                (elim (Bool-cases recurse) [
                  | inl f ↦ rw f (dht_get-Finds ask arrive fp s sound)
                  | inr f ↦ rw f (sound, tt)
                ])
          | inr (l, e) ↦ rw (rpc_dht_get, e) (sound, sound.sharded fp l e)
        ]
