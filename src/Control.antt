-- ===== src/Control.antt =====
-- src/socket.rs and src/daemon/control_protocol_impl.rs: sockets of either kind, and the table of them that the
-- control protocol keeps.
pub mod Binding
use earendil.Base.{
  ℕ, ◌+◌, ◌≡◌, Bool, true, false, Option, none, some, List, [], ◌∷◌, ◌++◌, Map, get, insert, remove,
  pair_eq, nat_eq, text_eq, Result, ok, err, panic,
}
use earendil.Crypto.{Bytes, Primitives, of_be, fingerprint, public}
use earendil.Daemon.State.{World, State, Endpoint, SendMessageError}
use earendil.Daemon.External.{Channel}
use earendil.Socket.N2r.{SocketRecvError, bind, bind_at, send_to, drop_dock}
use earendil.Havens.Session.{SessionCode, ReplayFilter}
use earendil.Havens.Sockets.{HavenSocket, HavenSocketError, bind_haven, haven_send_to}

pub data SocketSendError : Type 0 where
  n2r_send_error : SendMessageError → SocketSendError
  haven_encryption_error : HavenSocketError → SocketSendError

pub data ControlProtErr : Type 0 where
  socket_send_error : SocketSendError → ControlProtErr
  socket_recv_error : SocketRecvError → ControlProtErr
  no_socket : ControlProtErr

-- An N2R socket with its outgoing channel; the queue of what comes in is the daemon's.
pub record N2rSocket (outgoing : Channel (Bytes × Endpoint)) : Type 0 where
  pub isk : ℕ
  pub dock : ℕ
  pub send_outgoing : outgoing.Queue

pub data InnerSocket (outgoing : Channel (Bytes × Endpoint)) (rf : ReplayFilter)
    (decrypted : Channel (Bytes × Endpoint)) : Type 0 where
  n2r : N2rSocket outgoing → InnerSocket outgoing rf decrypted
  haven : N2rSocket outgoing → HavenSocket rf decrypted → InnerSocket outgoing rf decrypted

-- AnonIdentities: a cache from ids, which are their bytes, to secret keys. `get_identity` is its get, with the
-- cache after it.
unfoldable pub get_identity : Primitives → Bytes → Map Bytes ℕ → ℕ × Map Bytes ℕ
get_identity prim id map = elim (get id map) [
  | some isk ↦ (isk, map)
  | none ↦ let isk = of_be (prim.hash id) in (isk, insert id isk map)
]

module _ (world : World) (outgoing : Channel (Bytes × Endpoint)) (code : SessionCode)
    (rf : ReplayFilter) (decrypted : Channel (Bytes × Endpoint)) where
  abbrev pub Socket : Type 0
  Socket = InnerSocket outgoing rf decrypted

  abbrev pub n2r_part : Socket → N2rSocket outgoing
  n2r_part (n2r skt) = skt
  n2r_part (haven skt h) = skt

  -- Socket::bind_n2r_internal, with fuel for the docks that are drawn.
  unfoldable pub bind_n2r_internal : ℕ → ℕ → Option ℕ → State world → Option (Socket × State world)
  bind_n2r_internal fuel isk dock s = elim (bind world isk fuel dock s) [
    | none ↦ none
    | some bound ↦ some (
      n2r (record { isk = isk; dock = bound.0; send_outgoing = outgoing.bounded 10000 }),
      bound.1,
    )
  ]

  -- Socket::bind_haven_internal
  unfoldable pub bind_haven_internal :
      ℕ → ℕ → Option ℕ → Option ℕ → State world → Option (Socket × State world)
  bind_haven_internal fuel isk dock rendezvous_point s = elim (bind world isk fuel dock s) [
    | none ↦ none
    | some bound ↦ some (
      haven (record { isk = isk; dock = bound.0; send_outgoing = outgoing.bounded 10000 })
          (bind_haven world.prim code rf decrypted isk rendezvous_point),
      bound.1,
    )
  ]

  -- Socket::send_to. What a haven socket forwards goes to its N2R socket when its sessions make their steps.
  unfoldable pub socket_send_to :
      Bytes → Endpoint → Socket → Result SocketSendError (Unit {0}) × Socket
  socket_send_to body endpoint (n2r skt) =
      (ok tt, n2r (record skt { send_outgoing = send_to outgoing body endpoint skt.send_outgoing }))
  socket_send_to body endpoint (haven skt h) =
      let sent = haven_send_to world.prim code rf decrypted body endpoint h in
      elim sent.0 [
        | ok u ↦ (ok tt, haven skt sent.1)
        | err e ↦ (err (haven_encryption_error e), haven skt sent.1)
        | panic ↦ (panic, haven skt sent.1)
      ]

  -- Socket::local_endpoint
  unfoldable pub local_endpoint : Socket → Endpoint
  local_endpoint skt =
      (fingerprint world.prim (public world.prim (n2r_part skt).isk), (n2r_part skt).dock)

  -- A socket that is dropped takes its dock with it; the tasks of a haven socket end at once.
  unfoldable pub drop_socket : Option Socket → State world → State world
  drop_socket none s = s
  drop_socket (some skt) s = drop_dock world (n2r_part skt).isk (n2r_part skt).dock s

  -- ControlProtocolImpl, with the daemon that it controls.
  pub record ControlProtocolImpl : Type 0 where
    pub anon_identities : Map Bytes ℕ
    pub sockets : Map Bytes Socket
    pub daemon : State world

  -- ControlProtocolImpl::new
  unfoldable pub new_control : State world → ControlProtocolImpl
  new_control daemon = record { anon_identities = []; sockets = []; daemon = daemon }

  -- The key that a socket is bound with: that of the anonymous id, or the daemon's own.
  unfoldable pub identity_for : Option Bytes → ControlProtocolImpl → ℕ × ControlProtocolImpl
  unfolding get_identity
  identity_for none self = (self.daemon.global_identity, self)
  identity_for (some id) self =
      let got = get_identity world.prim id self.anon_identities in
      (got.0, record self { anon_identities = got.1 })

  -- self.sockets.insert(socket_id, socket), which drops the socket that stood there.
  unfoldable pub put_socket :
      Bytes → Socket × State world → ControlProtocolImpl → ControlProtocolImpl
  unfolding drop_socket
  put_socket socket_id bound self = record self {
    sockets = insert socket_id bound.0 self.sockets;
    daemon = drop_socket (get socket_id self.sockets) bound.1;
  }

  -- ControlProtocolImpl::bind_n2r; `none` when the fuel for a dock is out.
  unfoldable pub control_bind_n2r :
      ℕ → Bytes → Option Bytes → Option ℕ → ControlProtocolImpl → Option ControlProtocolImpl
  unfolding identity_for bind_n2r_internal put_socket
  control_bind_n2r fuel socket_id anon_id dock self =
      let keyed = identity_for anon_id self in
      elim (bind_n2r_internal fuel keyed.0 dock self.daemon) [
        | none ↦ none
        | some bound ↦ some (put_socket socket_id bound keyed.1)
      ]

  -- ControlProtocolImpl::bind_haven
  unfoldable pub control_bind_haven :
      ℕ
      → Bytes
      → Option Bytes
      → Option ℕ
      → Option ℕ
      → ControlProtocolImpl
      → Option ControlProtocolImpl
  unfolding identity_for bind_haven_internal put_socket
  control_bind_haven fuel socket_id anon_id dock rendezvous_point self =
      let keyed = identity_for anon_id self in
      elim (bind_haven_internal fuel keyed.0 dock rendezvous_point self.daemon) [
        | none ↦ none
        | some bound ↦ some (put_socket socket_id bound keyed.1)
      ]

  -- ControlProtocolImpl::skt_info
  unfoldable pub skt_info : Bytes → ControlProtocolImpl → Result ControlProtErr Endpoint
  unfolding local_endpoint
  skt_info skt_id self = elim (get skt_id self.sockets) [
    | some skt ↦ ok (local_endpoint skt)
    | none ↦ err no_socket
  ]

  -- ControlProtocolImpl::send_message
  unfoldable pub send_message :
      Bytes
      → Bytes
      → Endpoint
      → ControlProtocolImpl
      → Result ControlProtErr (Unit {0}) × ControlProtocolImpl
  unfolding socket_send_to
  send_message socket_id content destination self = elim (get socket_id self.sockets) [
    | none ↦ (err no_socket, self)
    | some skt ↦
        let sent = socket_send_to content destination skt in
        let after = record self { sockets = insert socket_id sent.1 self.sockets } in
        elim sent.0 [
          | ok u ↦ (ok tt, after)
          | err e ↦ (err (socket_send_error e), after)
          | panic ↦ (panic, after)
        ]
  ]
