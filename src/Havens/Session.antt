-- ===== src/Havens/Session.antt =====
-- src/socket/crypt_session.rs: the encrypted session between a haven and one of its clients.
pub mod Streams
pub mod Handshakes
pub mod Talk
use earendil.Base.{
  ℕ, ◌+◌, ◌%◌, ◌^◌, ◌≡◌, Bool, true, false, Option, none, some, List, [], ◌∷◌, ◌++◌, nat_beq, not,
  if◌then◌else◌, replicate, Result, ok, err, panic, ◌>>=◌ as bind_result, map_err,
}
use earendil.Crypto.{
  Bytes, Primitives, VerifyError, ascii, le_bytes, verify, fingerprint, public, sign,
}
use earendil.Packet.Types.{AeadError}
use earendil.Packet.Crypt.{onion_public, shared_secret, seal, aead_open}
use earendil.Daemon.State.{Endpoint}
use earendil.Daemon.Action.{Action, ◌>>=◌, ◌>>◌, return, fail, require, lift, modify, or_fail}
use earendil.Havens.Locators.{HavenLocator}
use earendil.Havens.Table.{DhtError, network_failure}
use earendil.Havens.Forward.{ForwardCode}

pub record Handshake : Type 0 where
  pub id_pk : ℕ
  pub eph_pk : ℕ
  pub sig : Bytes

pub data HavenMsg : Type 0 where
  client_hs server_hs : Handshake → HavenMsg
  regular : (nonce : ℕ) (inner : Bytes) → HavenMsg

-- stdcode of a handshake and of a message.
pub record SessionCode : Type 0 where
  pub handshake : Handshake → Bytes
  pub encode_msg : HavenMsg → Bytes
  pub decode_msg : Bytes → Option HavenMsg
  pub forward : ForwardCode

-- The replay filter of the crate replay_filter.
pub record ReplayFilter : Type 1 where
  pub Filter : Type 0
  pub fresh : Filter
  pub add : ℕ → Filter → Bool × Filter

pub data SessionError : Type 0 where
  bad_signature : VerifyError → SessionError
  spoofed_client dht_returned_none : SessionError
  dht_failed : DhtError → SessionError
  cannot_open : AeadError → SessionError
  task_ended : SessionError

-- HAVEN_FORWARD_DOCK
abbrev pub haven_forward_dock : ℕ
haven_forward_dock = 100002

-- What a client's lookup of its haven comes to; the outer `none` is the timeout.
abbrev pub Lookup : Type 0
Lookup = Option (Result DhtError (Option HavenLocator))

unfoldable pub pad_nonce : ℕ → Bytes
pad_nonce input = le_bytes 8 input ++ replicate 4 0

-- Where the task of a session stands.
pub data Phase (rf : ReplayFilter) : Type 0 where
  starting : Option Handshake → Phase rf
  awaiting : (my_osk : ℕ) → Phase rf
  running : (enc_key dec_key : Bytes) (nonce : ℕ) (seen : rf.Filter) → Phase rf
  ended : SessionError → Phase rf

-- A session with its task: the two channels into it, what it gave to the N2R socket, and what it
-- decrypted for the haven socket.
pub record Session (rf : ReplayFilter) : Type 0 where
  pub my_isk : ℕ
  pub remote : Endpoint
  pub rendezvous_fp : Option ℕ
  pub phase : Phase rf
  pub recv_incoming : List HavenMsg
  pub recv_outgoing : List Bytes
  pub outbox : List (Bytes × Endpoint)
  pub inbox : List (Bytes × Endpoint)

module _ (prim : Primitives) (code : SessionCode) where
  -- Handshake::to_sign
  unfoldable pub handshake_to_sign : Handshake → Bytes
  handshake_to_sign self =
      prim.keyed_hash (ascii "haven_handshake_________________")
        (code.handshake (record self { sig = [] }))

  -- Handshake::new
  unfoldable pub new_handshake : ℕ → ℕ → Handshake
  unfolding handshake_to_sign
  new_handshake id_sk onion_sk =
      let unsigned : Handshake = record {
        id_pk = public prim id_sk;
        eph_pk = onion_public prim onion_sk;
        sig = [];
      } in
      record unsigned { sig = sign prim id_sk (handshake_to_sign unsigned) }

  -- The check of CryptSession::new on a client's handshake.
  unfoldable pub check_client : Handshake → ℕ → Result SessionError (Unit {0})
  check_client hs fp = elim (verify prim hs.id_pk (handshake_to_sign hs) hs.sig) [
    | ok u ↦ if not (nat_beq (fingerprint prim hs.id_pk) fp) then err spoofed_client else ok tt
    | err e ↦ err (bad_signature e)
    | panic ↦ panic
  ]

  module _ (rf : ReplayFilter) where
    abbrev pub Task : Type 0 → Type 0
    Task A = Action (Session rf) SessionError A

    abbrev pub spawned : ℕ → Endpoint → Option ℕ → Option Handshake → Session rf
    spawned my_isk remote rendezvous_fp from_client = record {
      my_isk = my_isk;
      remote = remote;
      rendezvous_fp = rendezvous_fp;
      phase = starting from_client;
      recv_incoming = [];
      recv_outgoing = [];
      outbox = [];
      inbox = [];
    }

    -- CryptSession::new
    unfoldable pub new_session :
        ℕ → Endpoint → Option ℕ → Option (Handshake × ℕ) → Result SessionError (Session rf)
    unfolding check_client
    new_session my_isk remote rendezvous_fp none = ok (spawned my_isk remote rendezvous_fp none)
    new_session my_isk remote rendezvous_fp (some (hs, fp)) = elim (check_client hs fp) [
      | ok u ↦ ok (spawned my_isk remote rendezvous_fp (some hs))
      | err e ↦ err e
      | panic ↦ panic
    ]

    -- The channels of an ended task are closed.
    unfoldable pub send_outgoing : Bytes → Task (Unit {0})
    send_outgoing msg s = elim s.phase [
      | ended e ↦ (err task_ended, s)
      | _ ↦ (ok tt, record s { recv_outgoing = s.recv_outgoing ++ msg ∷ [] })
    ]

    unfoldable pub send_incoming : HavenMsg → Task (Unit {0})
    send_incoming msg s = elim s.phase [
      | ended e ↦ (err task_ended, s)
      | _ ↦ (ok tt, record s { recv_incoming = s.recv_incoming ++ msg ∷ [] })
    ]

    -- The endpoint of `send_to_rendezvous`.
    unfoldable pub rendezvous_ep : Lookup → Option ℕ → Result SessionError Endpoint
    rendezvous_ep lookup (some rob) = ok (rob, haven_forward_dock)
    rendezvous_ep none none = err (dht_failed network_failure)
    rendezvous_ep (some (err e)) none = err (dht_failed e)
    rendezvous_ep (some panic) none = panic
    rendezvous_ep (some (ok none)) none = err dht_returned_none
    rendezvous_ep (some (ok (some bob_locator))) none =
        ok (bob_locator.rendezvous_point, haven_forward_dock)

    unfoldable pub send_to_rendezvous : Lookup → HavenMsg → Task (Unit {0})
    unfolding rendezvous_ep
    send_to_rendezvous lookup msg s = elim (rendezvous_ep lookup s.rendezvous_fp) [
      | ok ep ↦ (
        ok tt,
        record s {
          outbox =
              s.outbox ++ (code.forward.encode_forward (code.encode_msg msg, s.remote), ep) ∷ [];
        },
      )
      | err e ↦ (err e, s)
      | panic ↦ (panic, s)
    ]

    -- The keys for the two directions.
    unfoldable pub up_key : Bytes → Bytes
    up_key shared_sec = prim.keyed_hash (prim.hash (ascii "haven-up")) shared_sec

    unfoldable pub down_key : Bytes → Bytes
    down_key shared_sec = prim.keyed_hash (prim.hash (ascii "haven-dn")) shared_sec

    -- Both loops start: a client has no rendezvous point of its own.
    unfoldable pub established : Option ℕ → Bytes → Phase rf
    established none shared_sec = running (up_key shared_sec) (down_key shared_sec) 0 rf.fresh
    established (some rob) shared_sec = running (down_key shared_sec) (up_key shared_sec) 0 rf.fresh

    unfoldable pub become : Phase rf → Task (Unit {0})
    become phase = modify λ s. record s { phase = phase }

    -- `enc_task` up to its first wait; `my_osk` is what it draws.
    unfoldable pub begin_task : ℕ → Lookup → Option Handshake → Task (Unit {0})
    unfolding send_to_rendezvous new_handshake established become
    begin_task my_osk lookup (some hs) s =
        (send_to_rendezvous lookup (server_hs (new_handshake s.my_isk my_osk))
            >> become (established s.rendezvous_fp (shared_secret prim my_osk hs.eph_pk)))
          s
    begin_task my_osk lookup none s =
        (send_to_rendezvous lookup (client_hs (new_handshake s.my_isk my_osk))
            >> become (awaiting my_osk))
          s

    -- A turn of the loop that waits for the server's handshake.
    unfoldable pub await_turn : ℕ → HavenMsg → Task (Unit {0})
    unfolding established
    await_turn my_osk (server_hs hs) s = (
      ok tt,
      record s { phase = established s.rendezvous_fp (shared_secret prim my_osk hs.eph_pk) },
    )
    await_turn my_osk (client_hs hs) s = (ok tt, s)
    await_turn my_osk (regular nonce inner) s = (ok tt, s)

    -- A turn of `down_loop`, on its filter and the nonce of `up_loop`.
    unfoldable pub down_turn : Bytes → Bytes → ℕ → rf.Filter → HavenMsg → Task (Unit {0})
    down_turn enc_key dec_key nonce seen (client_hs hs) s = (ok tt, s)
    down_turn enc_key dec_key nonce seen (server_hs hs) s = (ok tt, s)
    down_turn enc_key dec_key nonce seen (regular n inner) s =
        let added = rf.add n seen in
        let kept : Session rf = record s { phase = running enc_key dec_key nonce added.1 } in
        if added.0
        then elim (aead_open prim dec_key (pad_nonce n) inner) [
          | ok plain ↦ (ok tt, record kept { inbox = s.inbox ++ (plain, s.remote) ∷ [] })
          | err e ↦ (err (cannot_open e), kept)
          | panic ↦ (panic, kept)
        ]
        else (ok tt, kept)

    -- A turn of `up_loop`. The nonce is a u64, which wraps in a release build.
    unfoldable pub up_turn : Lookup → Bytes → Bytes → ℕ → rf.Filter → Bytes → Task (Unit {0})
    unfolding send_to_rendezvous become
    up_turn lookup enc_key dec_key nonce seen msg =
        send_to_rendezvous lookup (regular nonce (seal prim enc_key (pad_nonce nonce) msg))
        >> become (running enc_key dec_key ((nonce + 1) % 2 ^ 64) seen)

    -- An error ends the task.
    abbrev pub settle : Result SessionError (Unit {0}) × Session rf → Session rf
    settle (ok u, s) = s
    settle (err e, s) = record s { phase = ended e }
    settle (panic, s) = record s { phase = ended task_ended }

    -- The next event of the task: its start, a message that came in, or one to send. What it waits
    -- for and does not come changes nothing.
    abbrev pub started : ℕ → Lookup → Phase rf → Session rf → Session rf
    unfolding begin_task
    started my_osk lookup (starting from_client) s = settle (begin_task my_osk lookup from_client s)
    started my_osk lookup (awaiting osk) s = s
    started my_osk lookup (running enc_key dec_key nonce seen) s = s
    started my_osk lookup (ended e) s = s

    unfoldable pub start_task : ℕ → Lookup → Session rf → Session rf
    start_task my_osk lookup s = started my_osk lookup s.phase s

    unfoldable pub receive : Session rf → Session rf
    unfolding await_turn down_turn
    receive s = elim s.recv_incoming [
      | [] ↦ s
      | msg ∷ rest ↦ elim s.phase [
        | awaiting my_osk ↦ settle (await_turn my_osk msg (record s { recv_incoming = rest }))
        | running enc_key dec_key nonce seen ↦
            settle (down_turn enc_key dec_key nonce seen msg (record s { recv_incoming = rest }))
        | _ ↦ s
      ]
    ]

    unfoldable pub transmit : Lookup → Session rf → Session rf
    unfolding up_turn
    transmit lookup s = elim s.recv_outgoing [
      | [] ↦ s
      | msg ∷ rest ↦ elim s.phase [
        | running enc_key dec_key nonce seen ↦
            settle
              (up_turn lookup enc_key dec_key nonce seen msg (record s { recv_outgoing = rest }))
        | _ ↦ s
      ]
    ]
