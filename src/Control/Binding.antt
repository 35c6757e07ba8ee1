-- ===== src/Control/Binding.antt =====
-- What it does to bind a socket under an id that may have one.
use earendil.Base.{
  ℕ, ◌≡◌, refl, ap, ◌∙◌, Bool, false, Option, none, some, get, get-insert, get-remove, pair_eq,
  pair_beq, text_eq, text_beq, ok, Bool-cases, inl, inr, if◌then◌else◌,
}
use earendil.Crypto.{Bytes, fingerprint, public}
use earendil.Daemon.State.{World, State, Endpoint}
use earendil.Daemon.External.{Channel}
use earendil.Socket.N2r.{bind, bind_at, drop_dock}
use earendil.Havens.Session.{SessionCode, ReplayFilter}
use earendil.Control.{
  n2r, Socket, bind_n2r_internal, local_endpoint, drop_socket, ControlProtocolImpl, identity_for,
  put_socket, control_bind_n2r, skt_info,
}

module _ (world : World) (outgoing : Channel (Bytes × Endpoint)) (code : SessionCode)
    (rf : ReplayFilter) (decrypted : Channel (Bytes × Endpoint)) where
  abbrev Control : Type 0
  Control = ControlProtocolImpl world outgoing code rf decrypted

  -- Whether the socket under an id has an endpoint.
  abbrev pub holds : Option (Socket world outgoing code rf decrypted) → Endpoint → Bool
  holds none ep = false
  holds (some skt) ep = pair_beq (local_endpoint world outgoing code rf decrypted skt) ep

  -- The endpoint of the identity that a socket is bound with.
  abbrev pub endpoint_for : Option Bytes → ℕ → Control → Endpoint
  endpoint_for anon_id dock self = (
    fingerprint world.prim
        (public world.prim (identity_for world outgoing code rf decrypted anon_id self).0),
    dock,
  )

  drop_socket-queues :
      (old : Option (Socket world outgoing code rf decrypted)) (ep : Endpoint) (s : State world)
      → get ep (drop_socket world outgoing code rf decrypted old s).socket_recv_queues
        ≡ (if holds old ep then none else get ep s.socket_recv_queues)
  unfolding drop_socket drop_dock local_endpoint
  drop_socket-queues none ep s = refl
  drop_socket-queues (some skt) ep s =
      get-remove (local_endpoint world outgoing code rf decrypted skt) ep s.socket_recv_queues

  identity_for-sockets :
      (anon_id : Option Bytes) (self : Control)
      → (identity_for world outgoing code rf decrypted anon_id self).1.sockets ≡ self.sockets
  unfolding identity_for
  identity_for-sockets none self = refl
  identity_for-sockets (some id) self = refl

  skt_info-eq :
      (id : Bytes) (t self : Control)
      → t.sockets ≡ self.sockets
      → skt_info world outgoing code rf decrypted id t
        ≡ skt_info world outgoing code rf decrypted id self
  unfolding skt_info
  skt_info-eq id t self e = rw e refl

  put_socket-skt_info :
      (socket_id id : Bytes) (skt : Socket world outgoing code rf decrypted) (s : State world)
      (self : Control)
      → skt_info world outgoing code rf decrypted id
          (put_socket world outgoing code rf decrypted socket_id (skt, s) self)
        ≡ (if text_beq socket_id id
            then ok (local_endpoint world outgoing code rf decrypted skt)
            else skt_info world outgoing code rf decrypted id self)
  unfolding put_socket skt_info
  put_socket-skt_info socket_id id skt s self = elim (Bool-cases (text_beq socket_id id)) [
    | inl x ↦ rw (skt_info, get-insert socket_id id skt self.sockets, x) refl
    | inr x ↦ rw (skt_info, get-insert socket_id id skt self.sockets, x) refl
  ]

  bind_at-queues :
      (isk dock : ℕ) (ep : Endpoint) (s : State world)
      → get ep (bind_at world isk dock s).socket_recv_queues ≡ (
          if pair_beq (fingerprint world.prim (public world.prim isk), dock) ep
          then some (world.messages.bounded 1000)
          else get ep s.socket_recv_queues)
  unfolding bind_at
  bind_at-queues isk dock ep s =
      get-insert (fingerprint world.prim (public world.prim isk), dock) ep
        (world.messages.bounded 1000) s.socket_recv_queues

  -- To bind an N2R socket to a dock succeeds: the socket under the id has then the endpoint of its identity and
  -- dock, every other id its socket as before, and the daemon a new queue for that endpoint, unless the socket
  -- that stood under the id has the same endpoint: then it has none, since the old socket is dropped after the new
  -- one was bound. The queues of other endpoints stay, but for that of the old socket.
  pub control_bind_n2r_dock :
      (fuel : ℕ) (socket_id : Bytes) (anon_id : Option Bytes) (dock : ℕ) (self : Control)
      → let old = get socket_id self.sockets in
        let ep = endpoint_for anon_id dock self in
        (t : Control) × (control_bind_n2r world outgoing code rf decrypted fuel socket_id anon_id
            (some dock)
            self
          ≡ some t)
        × ((id : Bytes)
            → skt_info world outgoing code rf decrypted id t ≡ (
                if text_beq socket_id id
                then ok ep
                else skt_info world outgoing code rf decrypted id self))
        × ((at : Endpoint)
            → get at t.daemon.socket_recv_queues ≡ (
                if holds old at
                then none
                else if pair_beq ep at
                then some (world.messages.bounded 1000)
                else get at self.daemon.socket_recv_queues))
  unfolding control_bind_n2r bind_n2r_internal bind put_socket local_endpoint
  control_bind_n2r_dock fuel socket_id anon_id dock self =
      let keyed = identity_for world outgoing code rf decrypted anon_id self in
      let skt : Socket world outgoing code rf decrypted =
        n2r (record { isk = keyed.0; dock = dock; send_outgoing = outgoing.bounded 10000 }) in
      let s = bind_at world keyed.0 dock self.daemon in
      let same = identity_for-sockets anon_id self in
      let old = get socket_id self.sockets in
      (
        put_socket world outgoing code rf decrypted socket_id (skt, s) keyed.1,
        refl,
        λ id.
            put_socket-skt_info socket_id id skt s keyed.1
            ∙ ap (λ r. if text_beq socket_id id then ok (endpoint_for anon_id dock self) else r)
                (skt_info-eq id keyed.1 self same),
        λ at.
            ap
              (λ m.
                get at
                  (drop_socket world outgoing code rf decrypted (get socket_id m)
                    s).socket_recv_queues)
              same
            ∙ drop_socket-queues old at s
            ∙ ap (λ r. if holds old at then none else r)
                (bind_at-queues keyed.0 dock at self.daemon),
      )
