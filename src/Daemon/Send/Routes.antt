-- ===== src/Daemon/Send/Routes.antt =====
-- What `route_to_instructs` of src/daemon.rs makes of a route: the instructions for its relays.
use earendil.Base.{
  ℕ, ◌^◌, ◌≡◌, ◌<◌, refl, ◌⊎◌, inl, inr, Option, none, some, List, [], ◌∷◌, ◌++◌, map, arith, get,
  nat_eq, ok, err, Option-cases,
}
use earendil.Crypto.{Primitives, IsLawful, fingerprint-lt}
use earendil.Packet.Types.{Codec}
use earendil.Packet.Crypt.{onion_public}
use earendil.Packet.Raw.Layers.{Hop}
use earendil.Packet.Raw.Build.{instruct}
use earendil.Packet.Raw.Onion.{AreFingerprints}
use earendil.Topology.Graph.{RelayGraph, IdentityDescriptor, identity, id_of}
use earendil.Topology.Invariant.{IsWellFormed}
use earendil.Topology.Search.Route.{Route}
use earendil.Daemon.State.{no_onion_public}
use earendil.Daemon.Send.{route_to_instructs}

-- The relays of a route: all but the last, with the fingerprint that follows.
abbrev pub hops_of : (ℕ → ℕ) → List ℕ → List Hop
hops_of sk [] = []
hops_of sk (this ∷ []) = []
hops_of sk (this ∷ next ∷ rest) =
    record { secret = sk this; next = next } ∷ hops_of sk (next ∷ rest)

abbrev pub last_of : List ℕ → Option ℕ
last_of [] = none
last_of (x ∷ []) = some x
last_of (x ∷ y ∷ ys) = last_of (y ∷ ys)

-- All but the last have an identity on record.
abbrev pub RelaysKnown : RelayGraph → List ℕ → Type 0
RelaysKnown g [] = Unit {0}
RelaysKnown g (this ∷ []) = Unit {0}
RelaysKnown g (this ∷ next ∷ rest) =
    ((d : IdentityDescriptor) × (identity g this ≡ some d)) × RelaysKnown g (next ∷ rest)

last_of-append : (xs : List ℕ) (v : ℕ) → last_of (xs ++ v ∷ []) ≡ some v
last_of-append [] v = refl
last_of-append (x ∷ []) v = refl
last_of-append (x ∷ y ∷ ys) v = last_of-append (y ∷ ys) v

pub last_of-Route :
    (g : RelayGraph) (a v : ℕ) (fps : List ℕ) → Route g a v fps → last_of fps ≡ some v
last_of-Route g a _ _ (Route.here id h) = refl
last_of-Route g a _ _ (Route.there u v fps r lk) = last_of-append fps v

module _ (prim : Primitives) (codec : Codec) (sk : ℕ → ℕ) (g : RelayGraph)
    (keys : (fp : ℕ) (d : IdentityDescriptor)
      → identity g fp ≡ some d
      → d.onion_pk ≡ onion_public prim (sk fp)) where
  -- The instructions are those of the relays, or a relay has no identity on record.
  pub route_to_instructs_lem :
      (fps : List ℕ)
      → ((fp : ℕ) × (identity g fp ≡ none) × (route_to_instructs fps g ≡ err (no_onion_public fp)))
        ⊎ ((route_to_instructs fps g ≡ ok (map (instruct prim codec) (hops_of sk fps)))
            × RelaysKnown g fps)
  unfolding route_to_instructs
  route_to_instructs_lem [] = inr (refl, tt)
  route_to_instructs_lem (this ∷ []) = inr (refl, tt)
  route_to_instructs_lem (this ∷ next ∷ rest) = elim (Option-cases (identity g this)) [
    | inl gone ↦ inl (this, gone, rw (gone, route_to_instructs) refl)
    | inr (d, e) ↦ elim (route_to_instructs_lem (next ∷ rest)) [
      | inl (fp, gone, f) ↦ inl (fp, gone, rw (e, f, route_to_instructs) refl)
      | inr (f, known) ↦ inr (rw (e, f, route_to_instructs, keys this d e) refl, ((d, e), known))
    ]
  ]

  module _ (lawful : IsLawful prim) (v : IsWellFormed prim g) where
    known-lt : (fp : ℕ) (d : IdentityDescriptor) → identity g fp ≡ some d → fp < 256 ^ 20
    unfolding identity id_of
    known-lt fp d h = elim (Option-cases (get fp g.fp_to_id)) [
      | inl gone ↦ absurd (ground (arith, gone))
      | inr (id, e) ↦ ground (
        arith,
        v.ids.to_fp fp id e,
        v.ids.described id d,
        fingerprint-lt prim lawful d.identity_pk,
        e,
      )
    ]

    -- The fingerprints that the relays are told are fingerprints.
    pub hops_of-AreFingerprints :
        (fps : List ℕ) (last : ℕ) (d : IdentityDescriptor)
        → RelaysKnown g fps
        → last_of fps ≡ some last
        → identity g last ≡ some d
        → AreFingerprints (hops_of sk fps)
    hops_of-AreFingerprints [] last d known at e = tt
    hops_of-AreFingerprints (this ∷ []) last d known at e = tt
    hops_of-AreFingerprints (this ∷ next ∷ []) last d known at e =
        (known-lt next d (ground (arith, at, e)), tt)
    hops_of-AreFingerprints (this ∷ next ∷ after ∷ rest) last d (_, ((f, h), known)) at e = (
      known-lt next f h,
      hops_of-AreFingerprints (next ∷ after ∷ rest) last d ((f, h), known) at e,
    )
