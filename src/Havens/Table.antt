-- ===== src/Havens/Table.antt =====
-- src/daemon/dht.rs and src/global_rpc/server.rs: the distributed table of haven locators. `rank` is
-- blake3::hash of a key and a fingerprint, and `arrive` the order in which answers come in.
use earendil.Base.{
  ℕ, Bool, true, false, Option, none, some, List, [], ◌∷◌, ◌++◌, leb, nat_beq, if◌then◌else◌, Map,
  get, insert, nat_eq, take, Result, ok, err, panic, map,
}
use earendil.Crypto.{Primitives, VerifyError, fingerprint}
use earendil.Topology.Graph.{RelayGraph, all_nodes}
use earendil.Links.Protocol.{is_relay}
use earendil.Daemon.Action.{Action, lift, modify}
use earendil.Havens.Locators.{
  HavenLocator, RegisterHavenReq, HavenCode, verify_locator, verify_registration,
}

-- The text of a failure of the network is left out.
pub data DhtError : Type 0 where
  verify_failed network_failure : DhtError

-- DHT_CACHE, LOCAL_DHT_SHARD and REGISTERED_HAVENS, and the insertions that were asked of other nodes.
pub record HavenState : Type 0 where
  pub dht_cache : Map ℕ HavenLocator
  pub local_dht_shard : Map ℕ HavenLocator
  pub registered_havens : Map ℕ (Unit {0})
  pub asked : List (ℕ × HavenLocator)

abbrev pub DhtHandler : Type 0 → Type 0
DhtHandler A = Action HavenState DhtError A

-- What comes back from a replica: nothing, its error, or its result.
pub data DhtAnswer : Type 0 where
  no_answer nothing_there : DhtAnswer
  refused : DhtError → DhtAnswer
  located : HavenLocator → DhtAnswer

abbrev pub dht_redundancy : ℕ
dht_redundancy = 3

module _ (rank : ℕ → ℕ → ℕ) where
  -- sort_unstable_by_key
  unfoldable pub insert_by_rank : ℕ → ℕ → List ℕ → List ℕ
  insert_by_rank key fp [] = fp ∷ []
  insert_by_rank key fp (other ∷ fps) =
      if leb (rank key fp) (rank key other)
      then fp ∷ other ∷ fps
      else other ∷ insert_by_rank key fp fps

  unfoldable pub sort_by_rank : ℕ → List ℕ → List ℕ
  unfolding insert_by_rank
  sort_by_rank key [] = []
  sort_by_rank key (fp ∷ fps) = insert_by_rank key fp (sort_by_rank key fps)

  -- .filter(..) of `dht_key_to_fps`
  unfoldable pub relays_among : RelayGraph → List ℕ → List ℕ
  unfolding is_relay
  relays_among g [] = []
  relays_among g (fp ∷ fps) = if is_relay g fp then fp ∷ relays_among g fps else relays_among g fps

  unfoldable pub dht_key_to_fps : RelayGraph → ℕ → List ℕ
  unfolding sort_by_rank relays_among all_nodes
  dht_key_to_fps g key = sort_by_rank key (relays_among g (all_nodes g))

module _ (prim : Primitives) (code : HavenCode) where
  -- A locator under the right key that has come in.
  unfoldable pub accept_locator : ℕ → HavenLocator → DhtHandler (Option HavenLocator)
  accept_locator fp locator s = elim (verify_locator prim code locator) [
    | ok u ↦ (ok (some locator), record s { dht_cache = insert fp locator s.dht_cache })
    | err e ↦ (err verify_failed, s)
    | panic ↦ (panic, s)
  ]

  -- while let Some(result) = gatherer.next().await
  unfoldable pub gather :
      ℕ → Result DhtError (Option HavenLocator) → List DhtAnswer → DhtHandler (Option HavenLocator)
  unfolding accept_locator
  gather fp retval [] = lift retval
  gather fp retval (no_answer ∷ results) = gather fp (err network_failure) results
  gather fp retval (refused e ∷ results) = gather fp (err e) results
  gather fp retval (nothing_there ∷ results) = gather fp retval results
  gather fp retval (located locator ∷ results) =
      let rest = gather fp (err verify_failed) results in
      if nat_beq (fingerprint prim locator.identity_pk) fp then accept_locator fp locator else rest

  module _ (rank : ℕ → ℕ → ℕ) (g : RelayGraph) where
    unfoldable pub dht_get :
        (ask : ℕ → DhtAnswer) (arrive : List DhtAnswer → List DhtAnswer)
        → ℕ
        → DhtHandler (Option HavenLocator)
    unfolding gather dht_key_to_fps
    dht_get ask arrive fp s = elim (get fp s.dht_cache) [
      | some locator ↦ (ok (some locator), s)
      | none ↦
          gather fp (ok none) (arrive (map ask (take dht_redundancy (dht_key_to_fps rank g fp)))) s
    ]

    -- What the replicas answer is only logged.
    unfoldable pub dht_insert : HavenLocator → DhtHandler (Unit {0})
    unfolding dht_key_to_fps
    dht_insert locator =
        let replicas =
          take dht_redundancy (dht_key_to_fps rank g (fingerprint prim locator.identity_pk)) in
        modify λ s. record s { asked = s.asked ++ map (λ replica. (replica, locator)) replicas }

    -- GlobalRpcImpl::dht_insert
    unfoldable pub rpc_dht_insert : HavenLocator → Bool → DhtHandler (Unit {0})
    unfolding dht_insert
    rpc_dht_insert locator true s = dht_insert locator s
    rpc_dht_insert locator false s = elim (verify_locator prim code locator) [
      | ok u ↦ (
        ok tt,
        record s {
          local_dht_shard = insert (fingerprint prim locator.identity_pk) locator s.local_dht_shard;
        },
      )
      | err e ↦ (err verify_failed, s)
      | panic ↦ (panic, s)
    ]

    -- GlobalRpcImpl::dht_get
    unfoldable pub rpc_dht_get :
        (ask : ℕ → DhtAnswer) (arrive : List DhtAnswer → List DhtAnswer)
        → ℕ
        → Bool
        → DhtHandler (Option HavenLocator)
    unfolding dht_get
    rpc_dht_get ask arrive key recurse s = elim (get key s.local_dht_shard) [
      | some val ↦ (ok (some val), s)
      | none ↦ if recurse then dht_get ask arrive key s else (ok none, s)
    ]

  -- GlobalRpcImpl::alloc_forward
  unfoldable pub alloc_forward : RegisterHavenReq → Action HavenState VerifyError (Unit {0})
  alloc_forward registration s = elim (verify_registration prim code registration) [
    | ok u ↦ (
      ok tt,
      record s {
        registered_havens =
            insert (fingerprint prim registration.identity_pk) tt s.registered_havens;
      },
    )
    | err e ↦ (err e, s)
    | panic ↦ (panic, s)
  ]
