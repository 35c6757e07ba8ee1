-- ===== src/Havens/Serving.antt =====
-- A node that serves requests for locators and registrations (src/global_rpc/server.rs).
use earendil.Base.{
  ℕ, ◌≡◌, refl, inl, inr, Bool, true, false, some, List, arith, nat_beq, nat_beq_iff, get, remove,
  get-insert, get-remove, nat_eq, ok, Result-cases, Bool-cases,
}
use earendil.Crypto.{Primitives, IsLawful, fingerprint, public}
use earendil.Topology.Graph.{RelayGraph}
use earendil.Havens.Locators.{
  HavenLocator, RegisterHavenReq, HavenCode, verify_locator, verify_registration, new_locator,
  new_registration, verify_locator-new_locator, verify_registration-new_registration,
}
use earendil.Havens.Table.{
  HavenState, DhtAnswer, dht_insert, rpc_dht_insert, rpc_dht_get, alloc_forward,
}
use earendil.Havens.Genuine.{
  start, IsSound, insert-AllGenuine, remove-AllGenuine, start-IsSound, rpc_dht_get-Finds,
}

module _ (prim : Primitives) (code : HavenCode) where
  module _ (rank : ℕ → ℕ → ℕ) (g : RelayGraph) where
    -- One request that a node serves, or the loss of entries that are out of date.
    pub data Serves : HavenState → HavenState → Type 0 where
      inserts :
          (locator : HavenLocator) (recurse : Bool) (s : HavenState)
          → Serves s (rpc_dht_insert prim code rank g locator recurse s).1
      gets :
          (ask : ℕ → DhtAnswer) (arrive : List DhtAnswer → List DhtAnswer) (fp : ℕ) (recurse : Bool)
          (s : HavenState)
          → Serves s (rpc_dht_get prim code rank g ask arrive fp recurse s).1
      allocates :
          (reg : RegisterHavenReq) (s : HavenState) → Serves s (alloc_forward prim code reg s).1
      expires :
          (fp1 fp2 fp3 : ℕ) (s : HavenState)
          → Serves s (record s {
            dht_cache = remove fp1 s.dht_cache;
            local_dht_shard = remove fp2 s.local_dht_shard;
            registered_havens = remove fp3 s.registered_havens;
          })

    pub data Reaches : HavenState → HavenState → Type 0 where
      here : (s : HavenState) → Reaches s s
      then_serves : (s t u : HavenState) → Reaches s t → Serves t u → Reaches s u

    rpc_dht_insert-IsSound :
        (locator : HavenLocator) (recurse : Bool) (s : HavenState)
        → IsSound prim code s
        → IsSound prim code (rpc_dht_insert prim code rank g locator recurse s).1
    unfolding rpc_dht_insert dht_insert
    rpc_dht_insert-IsSound locator true s sound = record {
      cached = sound.cached;
      sharded = sound.sharded;
      registered = sound.registered;
    }
    rpc_dht_insert-IsSound locator false s sound =
        elim (Result-cases (verify_locator prim code locator)) [
          | inl (u, e) ↦
              rw (rpc_dht_insert, e)
                record {
                  cached = sound.cached;
                  sharded =
                      insert-AllGenuine prim code (fingerprint prim locator.identity_pk) locator
                        s.local_dht_shard (refl, e) sound.sharded;
                  registered = sound.registered;
                }
          | inr (inl (x, e)) ↦ rw (rpc_dht_insert, e) sound
          | inr (inr e) ↦ rw (rpc_dht_insert, e) sound
        ]

    alloc_forward-IsSound :
        (reg : RegisterHavenReq) (s : HavenState)
        → IsSound prim code s
        → IsSound prim code (alloc_forward prim code reg s).1
    unfolding alloc_forward
    alloc_forward-IsSound reg s sound = elim (Result-cases (verify_registration prim code reg)) [
      | inl (u, e) ↦
          rw (alloc_forward, e)
            record {
              cached = sound.cached;
              sharded = sound.sharded;
              registered = λ fp h.
                  elim (Bool-cases (nat_beq (fingerprint prim reg.identity_pk) fp)) [
                    | inl f ↦ (reg, (nat_beq_iff (fingerprint prim reg.identity_pk) fp).0 f, e)
                    | inr f ↦ sound.registered fp (
                        ground (
                          arith,
                          h,
                          f,
                          get-insert (fingerprint prim reg.identity_pk) fp tt s.registered_havens,
                        ))
                  ];
            }
      | inr (inl (x, e)) ↦ rw (alloc_forward, e) sound
      | inr (inr e) ↦ rw (alloc_forward, e) sound
    ]

    Serves-IsSound : (s t : HavenState) → Serves s t → IsSound prim code s → IsSound prim code t
    Serves-IsSound _ _ (inserts locator recurse s) sound =
        rpc_dht_insert-IsSound locator recurse s sound
    Serves-IsSound _ _ (gets ask arrive fp recurse s) sound =
        (rpc_dht_get-Finds prim code rank g ask arrive fp recurse s sound).0
    Serves-IsSound _ _ (allocates reg s) sound = alloc_forward-IsSound reg s sound
    Serves-IsSound _ _ (expires fp1 fp2 fp3 s) sound = record {
      cached = remove-AllGenuine prim code fp1 s.dht_cache sound.cached;
      sharded = remove-AllGenuine prim code fp2 s.local_dht_shard sound.sharded;
      registered =
          λ fp h. sound.registered fp (ground (arith, h, get-remove fp3 fp s.registered_havens));
    }

    -- Whatever requests a node has served since its start, and whatever it has forgotten since: each locator
    -- in its shard or its cache is genuine, and each haven that it has on record has signed a registration.
    pub Reaches-IsSound : (s : HavenState) → Reaches start s → IsSound prim code s
    Reaches-IsSound s r = go start s r (start-IsSound prim code)
      where
        go : (s t : HavenState) → Reaches s t → IsSound prim code s → IsSound prim code t
        go _ _ (here s) sound = sound
        go _ _ (then_serves s t u r step) sound = Serves-IsSound t u step (go s t r sound)

    -- A locator that a haven makes is taken into the shard of a node that is asked to keep it, and the node
    -- then returns it to whoever looks for the fingerprint of the haven.
    pub rpc_dht_get-rpc_dht_insert :
        IsLawful prim
        → (ask : ℕ → DhtAnswer) (arrive : List DhtAnswer → List DhtAnswer) (recurse : Bool)
          (identity_sk onion_pk rendezvous : ℕ) (s : HavenState)
        → let locator = new_locator prim code identity_sk onion_pk rendezvous in
          let kept = rpc_dht_insert prim code rank g locator false s in
          (kept.0 ≡ ok tt)
          × (rpc_dht_get prim code rank g ask arrive
                (fingerprint prim (public prim identity_sk))
                recurse
                kept.1
              ≡ (ok (some locator), kept.1))
    unfolding rpc_dht_insert rpc_dht_get new_locator
    rpc_dht_get-rpc_dht_insert lawful ask arrive recurse identity_sk onion_pk rendezvous s =
        let locator = new_locator prim code identity_sk onion_pk rendezvous in
        let fp = fingerprint prim (public prim identity_sk) in
        let e = verify_locator-new_locator prim code lawful identity_sk onion_pk rendezvous in
        (
          ground (arith, e),
          ground (arith, e, get-insert fp fp locator s.local_dht_shard, nat_beq_iff fp fp),
        )

  -- A registration that a haven made at any time, however long ago, registers it.
  pub alloc_forward-new_registration :
      IsLawful prim
      → (identity_sk made : ℕ) (s : HavenState)
      → let r = alloc_forward prim code (new_registration prim code identity_sk made) s in
        (r.0 ≡ ok tt)
        × (get (fingerprint prim (public prim identity_sk)) r.1.registered_havens ≡ some tt)
  unfolding alloc_forward new_registration
  alloc_forward-new_registration lawful identity_sk made s =
      let fp = fingerprint prim (public prim identity_sk) in
      let e = verify_registration-new_registration prim code lawful identity_sk made in
      (
        ground (arith, e),
        ground (arith, e, get-insert fp fp tt s.registered_havens, nat_beq_iff fp fp),
      )
