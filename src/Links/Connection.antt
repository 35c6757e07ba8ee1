-- ===== src/Links/Connection.antt =====
-- src/daemon/link_connection.rs: how a link is set up, its packets, and its pool of RPC streams.
use earendil.Base.{
  ℕ, zero, suc, ◌-◌, ◌≡◌, refl, sym, ap, ◌∙◌, Option, none, some, List, [], ◌∷◌, ◌++◌, map, arith,
  length, take, ltb, if◌then◌else◌, Result, ok, err, panic, Option-cases, inl, inr, subst,
}
use mathlib.Core.List.{append-nil, append_assoc}
use earendil.Crypto.{Bytes, Primitives, VerifyError}
use earendil.Packet.Types.{RawPacket}
use earendil.Daemon.External.{Channel, IsChannel, or_else}
use earendil.Links.Protocol.{AuthResponse, verify_auth}

pub data LinkError : Type 0 where
  no_response no_peer_pk wrong_size queue_full cannot_connect : LinkError
  not_authenticated : VerifyError → LinkError

-- LinkConnection::connect: what the other end answers to `authenticate`, and the key of its multiplex, if they are
-- there. The result is the identity of the other end.
unfoldable pub link_connect : Primitives → Option AuthResponse → Option Bytes → Result LinkError ℕ
link_connect prim none peer_pk = err no_response
link_connect prim (some resp) none = err no_peer_pk
link_connect prim (some resp) (some peer_pk) = elim (verify_auth prim resp peer_pk) [
  | ok u ↦ ok resp.full_pk
  | err e ↦ err (not_authenticated e)
  | panic ↦ panic
]

-- bytemuck::bytes_of and try_from_bytes on packets, which are arrays of bytes of one size.
pub record PacketBytes : Type 0 where
  pub bytes_of : RawPacket → Bytes
  pub try_from_bytes : Bytes → Option RawPacket

-- The sizes of the arrays of a packet.
pub record IsSized (pkt : RawPacket) : Type 0 where
  pub outer_size : length pkt.header.outer ≡ 69
  pub inner_size : length pkt.header.inner ≡ 621
  pub body_size : length pkt.onion_body ≡ 8192

pub record IsPacketBytes (cast : PacketBytes) : Type 0 where
  pub try_from_bytes-bytes_of :
      (pkt : RawPacket) → IsSized pkt → cast.try_from_bytes (cast.bytes_of pkt) ≡ some pkt

module _ (cast : PacketBytes) (packets : Channel RawPacket) where
  -- LinkConnection::send_raw_packet
  unfoldable pub send_raw_packet : RawPacket → packets.Queue → packets.Queue
  send_raw_packet pkt queue = or_else queue (packets.try_send pkt queue)

  -- A turn of `up` of handle_onion_packets: a message for the stream, `none` while it waits.
  unfoldable pub onion_up_turn : packets.Queue → Option (Bytes × packets.Queue)
  onion_up_turn queue = elim (packets.recv queue) [
    | none ↦ none
    | some taken ↦ some (cast.bytes_of taken.0, taken.1)
  ]

  -- A turn of `dn`: an error ends it.
  unfoldable pub onion_dn_turn : Bytes → packets.Queue → Result LinkError (Unit {0}) × packets.Queue
  onion_dn_turn message queue = elim (cast.try_from_bytes message) [
    | none ↦ (err wrong_size, queue)
    | some pkt ↦ elim (packets.try_send pkt queue) [
      | none ↦ (err queue_full, queue)
      | some later ↦ (ok tt, later)
    ]
  ]

  -- Turns of `up`, and turns of `dn` until one fails.
  unfoldable pub ups : ℕ → packets.Queue → List Bytes
  ups zero queue = []
  ups (suc n) queue = elim (onion_up_turn queue) [ none ↦ [] | some sent ↦ sent.0 ∷ ups n sent.1 ]

  unfoldable pub dns : List Bytes → packets.Queue → Result LinkError (Unit {0}) × packets.Queue
  dns [] queue = (ok tt, queue)
  dns (message ∷ messages) queue =
      let turned = onion_dn_turn message queue in
      let rest = dns messages turned.1 in
      elim turned.0 [ ok u ↦ rest | err e ↦ turned | panic ↦ turned ]

  -- How many packets the other end has room for.
  unfoldable pub fitting : List RawPacket → packets.Queue → ℕ
  fitting [] queue = 0
  fitting (pkt ∷ pkts) queue = elim (packets.try_send pkt queue) [
    | none ↦ 0
    | some later ↦ suc (fitting pkts later)
  ]

abbrev pub AreSized : List RawPacket → Type 0
AreSized [] = Unit
AreSized (pkt ∷ pkts) = IsSized pkt × AreSized pkts

-- What becomes of the loop if k of n packets fit.
abbrev pub dropped_at : ℕ → ℕ → Result LinkError (Unit {0})
dropped_at k n = if ltb k n then err queue_full else ok tt

-- MultiplexRpcTransport::get_conn: the oldest stream of the pool that was used less than 60 seconds ago; older
-- ones are dropped. `opened` is what open_conn comes to.
unfoldable pub get_conn :
    {Conn : Type 0} → ℕ → Option Conn → List (Conn × ℕ) → Result LinkError Conn × List (Conn × ℕ)
get_conn now none [] = (err cannot_connect, [])
get_conn now (some conn) [] = (ok conn, [])
get_conn now opened ((stream, time) ∷ pool) =
    let rest = get_conn now opened pool in if ltb (now - time) 60 then (ok stream, pool) else rest

-- MultiplexRpcTransport::call_raw: the stream goes back into the pool whatever the exchange comes to. `exchange`
-- writes the request and reads a line.
unfoldable pub link_call :
    {Conn Response : Type 0}
    → (Conn → Result LinkError Response × Conn)
    → ℕ
    → ℕ
    → Option Conn
    → List (Conn × ℕ)
    → Result LinkError Response × List (Conn × ℕ)
unfolding get_conn
link_call exchange now finished opened pool =
    let got = get_conn now opened pool in
    elim got.0 [
      | err e ↦ (err e, got.1)
      | panic ↦ (panic, got.1)
      | ok conn ↦ let done = exchange conn in (done.0, got.1 ++ (done.1, finished) ∷ [])
    ]

module _ (cast : PacketBytes) (packets : Channel RawPacket) (same : IsPacketBytes cast)
    (channel : IsChannel packets) where
  ups_lem :
      (pkts : List RawPacket) (queue : packets.Queue)
      → packets.pending queue ≡ pkts
      → ups cast packets (length pkts) queue ≡ map cast.bytes_of pkts
  unfolding ups onion_up_turn
  ups_lem [] queue e = refl
  ups_lem (pkt ∷ pkts) queue e =
      let (later, took, left) = channel.recv_oldest pkt pkts queue e in
      rw (ups, onion_up_turn, took) (ap (◌∷◌ (cast.bytes_of pkt)) (ups_lem pkts later left))

  onion_dn_turn_full :
      (pkt : RawPacket) (queue : packets.Queue)
      → IsSized pkt
      → packets.try_send pkt queue ≡ none
      → onion_dn_turn cast packets (cast.bytes_of pkt) queue ≡ (err queue_full, queue)
  unfolding onion_dn_turn
  onion_dn_turn_full pkt queue z e =
      rw (onion_dn_turn, same.try_from_bytes-bytes_of pkt z) (rw e refl)

  onion_dn_turn_room :
      (pkt : RawPacket) (queue later : packets.Queue)
      → IsSized pkt
      → packets.try_send pkt queue ≡ some later
      → onion_dn_turn cast packets (cast.bytes_of pkt) queue ≡ (ok tt, later)
  unfolding onion_dn_turn
  onion_dn_turn_room pkt queue later z e =
      rw (onion_dn_turn, same.try_from_bytes-bytes_of pkt z) (rw e refl)

  dns_full :
      (pkt : RawPacket) (messages : List Bytes) (queue : packets.Queue)
      → IsSized pkt
      → packets.try_send pkt queue ≡ none
      → dns cast packets (cast.bytes_of pkt ∷ messages) queue ≡ (err queue_full, queue)
  unfolding dns
  dns_full pkt messages queue z e =
      rw (dns, onion_dn_turn_full pkt queue z e) (onion_dn_turn_full pkt queue z e)

  dns_next :
      (pkt : RawPacket) (messages : List Bytes) (queue later : packets.Queue)
      → IsSized pkt
      → packets.try_send pkt queue ≡ some later
      → dns cast packets (cast.bytes_of pkt ∷ messages) queue ≡ dns cast packets messages later
  unfolding dns
  dns_next pkt messages queue later z e =
      let turned = onion_dn_turn_room pkt queue later z e in
      rw (dns, turned) (ap (λ r. dns cast packets messages r.1) turned)

  dns_lem :
      (pkts : List RawPacket) (queue : packets.Queue)
      → AreSized pkts
      → let done = dns cast packets (map cast.bytes_of pkts) queue in
        let k = fitting cast packets pkts queue in
        (packets.pending done.1 ≡ packets.pending queue ++ take k pkts)
        × (done.0 ≡ dropped_at k (length pkts))
  unfolding fitting take dns
  dns_lem [] queue z = (sym (append-nil (packets.pending queue)), refl)
  dns_lem (pkt ∷ pkts) queue z = elim (Option-cases (packets.try_send pkt queue)) [
    | inl e ↦
        let done = dns_full pkt (map cast.bytes_of pkts) queue z.0 e in
        rw (fitting, e) (rw done (sym (append-nil (packets.pending queue)), ground arith))
    | inr (later, e) ↦
        let rest = dns_lem pkts later z.1 in
        rw (fitting, e)
          (rw (dns_next pkt (map cast.bytes_of pkts) queue later z.0 e) (
            rest.0
                ∙ ap (λ q. q ++ take (fitting cast packets pkts later) pkts)
                    (channel.pending-try_send pkt queue later e)
                ∙ append_assoc (packets.pending queue) (pkt ∷ [])
                    (take (fitting cast packets pkts later) pkts),
            rest.1 ∙ ground arith,
          ))
  ]

  -- For packets of the right sizes that stand in the outgoing channel of one end, if no message is lost: as many of them as the
  -- incoming channel of the other end has room for arrive there, unchanged, in order and behind what is there; and
  -- the loop of the other end fails exactly if not all of them do.
  pub link_carries :
      (pkts : List RawPacket) (out inn : packets.Queue)
      → AreSized pkts
      → packets.pending out ≡ pkts
      → let done = dns cast packets (ups cast packets (length pkts) out) inn in
        let k = fitting cast packets pkts inn in
        (packets.pending done.1 ≡ packets.pending inn ++ take k pkts)
        × (done.0 ≡ dropped_at k (length pkts))
  link_carries pkts out inn z e =
      let k = fitting cast packets pkts inn in
      subst
        (λ wire.
          (packets.pending (dns cast packets wire inn).1 ≡ packets.pending inn ++ take k pkts)
          × ((dns cast packets wire inn).0 ≡ dropped_at k (length pkts)))
        (sym (ups_lem pkts out e)) (dns_lem pkts inn z)
