-- ===== src/Havens/Sockets.antt =====
-- src/socket/haven_socket.rs: a socket whose traffic goes through encrypted sessions.
pub mod Belongs
pub mod Refuses
pub mod Reaches
pub mod Conversation
pub mod Arrives
pub mod Delivers
use earendil.Base.{
  ℕ, ◌≡◌, Bool, true, false, Option, none, some, List, [], ◌∷◌, ◌++◌, Map, get, insert, remove,
  pair_eq, Result, ok, err, panic,
}
use earendil.Crypto.{Bytes, Primitives, VerifyError}
use earendil.Havens.Locators.{HavenLocator, HavenCode, new_locator}
use earendil.Daemon.State.{Endpoint}
use earendil.Daemon.Action.{Action, ◌>>=◌, ◌>>◌, return, fail, require, lift, read, modify, or_fail}
use earendil.Daemon.External.{Channel, or_else}
use earendil.Havens.Session.{
  Handshake, HavenMsg, client_hs, server_hs, regular, SessionCode, ReplayFilter, SessionError,
  Lookup, Session, new_session, send_outgoing, send_incoming, start_task, receive, transmit,
}

pub data HavenSocketError : Type 0 where
  cannot_decode stray_msg : HavenSocketError
  session_failed : SessionError → HavenSocketError

module _ (rf : ReplayFilter) (decrypted : Channel (Bytes × Endpoint)) where
  -- `forwarded` is what was given to the N2R socket, and `incoming` the channel of decrypted messages.
  pub record HavenSocket : Type 0 where
    pub identity_sk : ℕ
    pub rendezvous_point : Option ℕ
    pub crypt_sessions : Map Endpoint (Session rf)
    pub forwarded : List (Bytes × Endpoint)
    pub incoming : decrypted.Queue

module _ (prim : Primitives) (code : SessionCode) (rf : ReplayFilter)
    (decrypted : Channel (Bytes × Endpoint)) where
  abbrev pub SocketTask : Type 0 → Type 0
  SocketTask A = Action (HavenSocket rf decrypted) HavenSocketError A

  -- HavenSocket::bind, apart from the N2R socket below it.
  unfoldable pub bind_haven : ℕ → Option ℕ → HavenSocket rf decrypted
  bind_haven isk rendezvous_point = record {
    identity_sk = isk;
    rendezvous_point = rendezvous_point;
    crypt_sessions = [];
    forwarded = [];
    incoming = decrypted.bounded 1000;
  }

  unfoldable pub insert_session : Endpoint → Session rf → SocketTask (Unit {0})
  insert_session remote session =
      modify λ s. record s { crypt_sessions = insert remote session s.crypt_sessions }

  -- A new session, with the keys and the rendezvous point of the socket.
  unfoldable pub open_session : Endpoint → Option (Handshake × ℕ) → SocketTask (Session rf)
  open_session remote client_info s =
      or_fail session_failed
        (lift (new_session prim code rf s.identity_sk remote s.rendezvous_point client_info)) s

  -- enc.send_incoming(haven_msg), if there is such a session
  unfoldable pub pass_on : Endpoint → HavenMsg → SocketTask (Unit {0})
  pass_on remote msg s = elim (get remote s.crypt_sessions) [
    | none ↦ (err stray_msg, s)
    | some enc ↦
        let sent = send_incoming prim code rf msg enc in
        elim sent.0 [
          | ok u ↦ (ok tt, record s { crypt_sessions = insert remote sent.1 s.crypt_sessions })
          | err e ↦ (err (session_failed e), s)
          | panic ↦ (panic, s)
        ]
  ]

  -- `match haven_msg` of `recv_task`
  unfoldable pub dispatch_msg : Endpoint → HavenMsg → SocketTask (Unit {0})
  unfolding open_session insert_session pass_on
  dispatch_msg remote (server_hs hs) = pass_on remote (server_hs hs)
  dispatch_msg remote (regular nonce inner) = pass_on remote (regular nonce inner)
  dispatch_msg remote (client_hs hs) = do
    session ← open_session remote (some (hs, remote.0))
    insert_session remote session

  -- A turn of `recv_task` on a message of the N2R socket. An error ends the task, which starts again with the
  -- same sessions.
  unfoldable pub recv_turn : Bytes → SocketTask (Unit {0})
  unfolding dispatch_msg
  recv_turn n2r_msg = do
    unpacked ← require (code.forward.decode_forward n2r_msg) cannot_decode
    haven_msg ← require (code.decode_msg unpacked.0) cannot_decode
    dispatch_msg unpacked.1 haven_msg

  -- try_get_with
  unfoldable pub session_for : Endpoint → SocketTask (Session rf)
  unfolding open_session insert_session
  session_for endpoint s = elim (get endpoint s.crypt_sessions) [
    | some enc ↦ (ok enc, s)
    | none ↦ (do enc ← open_session endpoint none; insert_session endpoint enc; return enc) s
  ]

  -- enc.send_outgoing(body); a session that has ended is forgotten.
  unfoldable pub queue_body : Bytes → Endpoint → Session rf → SocketTask (Unit {0})
  unfolding insert_session
  queue_body body endpoint enc =
      let sent = send_outgoing prim code rf body enc in
      elim sent.0 [
        | ok u ↦ insert_session endpoint sent.1
        | err e ↦
            modify (λ s. record s { crypt_sessions = remove endpoint s.crypt_sessions })
            >> fail (session_failed e)
        | panic ↦ lift panic
      ]

  -- HavenSocket::send_to
  unfoldable pub haven_send_to : Bytes → Endpoint → SocketTask (Unit {0})
  unfolding session_for queue_body
  haven_send_to body endpoint = do enc ← session_for endpoint; queue_body body endpoint enc

  -- HavenSocket::recv_from; `none` while it waits.
  unfoldable pub haven_recv_from :
      HavenSocket rf decrypted → Option ((Bytes × Endpoint) × HavenSocket rf decrypted)
  haven_recv_from s = elim (decrypted.recv s.incoming) [
    | none ↦ none
    | some taken ↦ some (taken.0, record s { incoming = taken.1 })
  ]

  -- let _ = send_incoming_decrypted.try_send(..)
  unfoldable pub push_decrypted : List (Bytes × Endpoint) → decrypted.Queue → decrypted.Queue
  push_decrypted [] queue = queue
  push_decrypted (item ∷ items) queue =
      push_decrypted items (or_else queue (decrypted.try_send item queue))

  -- The task of a session makes a step: what it sends goes to the N2R socket, what it decrypts into the channel.
  unfoldable pub session_step :
      (Session rf → Session rf) → Endpoint → HavenSocket rf decrypted → HavenSocket rf decrypted
  unfolding push_decrypted
  session_step step remote s = elim (get remote s.crypt_sessions) [
    | none ↦ s
    | some enc ↦
        let later = step enc in
        record s {
          crypt_sessions =
              insert remote (record later { outbox = []; inbox = [] }) s.crypt_sessions;
          forwarded = s.forwarded ++ later.outbox;
          incoming = push_decrypted later.inbox s.incoming;
        }
  ]

-- What comes of a request to the rendezvous relay: the outer result of the client is that of the transport, the
-- inner one that of alloc_forward.
pub data RegisterAnswer : Type 0 where
  timed_out transport_failed : RegisterAnswer
  answered : Result VerifyError (Unit {0}) → RegisterAnswer

-- What the task that registers a haven does then: it waits some seconds, or first puts a locator into the
-- distributed table.
pub data Registering : Type 0 where
  waits : (seconds : ℕ) → Registering
  publishes : HavenLocator → (seconds : ℕ) → Registering

unfoldable pub register_turn :
    (prim : Primitives) (code : HavenCode) → ℕ → ℕ → ℕ → RegisterAnswer → Registering
register_turn prim code isk onion_pk rob transport_failed = waits 3
register_turn prim code isk onion_pk rob timed_out = waits 3
register_turn prim code isk onion_pk rob (answered r) =
    publishes (new_locator prim code isk onion_pk rob) 5
