-- ===== src/Proxies.antt =====
-- src/daemon/socks5.rs and the simple proxy of src/haven_util.rs: where a SOCKS5 request goes.
pub mod Relays
use earendil.Base.{
  ℕ, ◌+◌, ◌%◌, ◌^◌, Option, none, some, List, [], ◌∷◌, ◌++◌, length, take, drop, ltb, if◌then◌else◌,
  Result, ok, err, panic, text_eq, text_beq,
}
use earendil.Crypto.{Bytes, ascii, be_bytes, of_be}
use earendil.Daemon.State.{Endpoint}
use earendil.Socket.Endpoints.{Base32, EndpointError, colon, split, decimal, fingerprint_from_str}

-- What the crate socksv5 reads; a domain has at most 255 bytes.
pub data SocksV5Host : Type 0 where
  domain : Bytes → SocksV5Host
  ipv4 : (a b c d : ℕ) → SocksV5Host
  ipv6 : Bytes → SocksV5Host

pub data Fallback : Type 0 where
  block pass_through : Fallback
  simple_proxy : (remote : Endpoint) → Fallback

-- What becomes of a request; a stream to the simple proxy starts with a header.
pub data Outcome : Type 0 where
  bails : Outcome
  invalid_address : EndpointError → Outcome
  blocks : Outcome
  connects_haven : Endpoint → Outcome
  connects_tcp : (addr : Bytes) → Outcome
  connects_proxy : (remote : Endpoint) (header : Bytes) → Outcome

abbrev pub dot : ℕ
dot = 46

-- Ipv4Addr::to_string
unfoldable pub ipv4_text : ℕ → ℕ → ℕ → ℕ → Bytes
ipv4_text a b c d = decimal 3 a (dot ∷ decimal 3 b (dot ∷ decimal 3 c (dot ∷ decimal 3 d [])))

-- split('.').last(), of pieces that are never none
abbrev pub last_piece : List Bytes → Option Bytes
last_piece [] = none
last_piece (piece ∷ []) = some piece
last_piece (piece ∷ next ∷ pieces) = last_piece (next ∷ pieces)

abbrev pub first_piece : List Bytes → Option Bytes
first_piece [] = none
first_piece (piece ∷ pieces) = some piece

-- format!("{domain}:{port}")
unfoldable pub address : Bytes → ℕ → Bytes
address name port = name ++ colon ∷ decimal 5 port []

-- How many bytes a write of the stream takes, none if it fails.
abbrev pub Taken : Type 0
Taken = Option ℕ

-- AsyncWriteExt::write: what is on the stream then. The count that it returns is not looked at.
unfoldable pub write : Taken → Bytes → Option Bytes
write none bytes = none
write (some n) bytes = some (take n bytes)

-- write of (addr.len() as u16).to_be_bytes(), then of the address; none if one of them fails.
unfoldable pub proxy_header : Taken → Taken → Bytes → Option Bytes
unfolding write
proxy_header prepend_taken addr_taken addr =
    elim (write prepend_taken (be_bytes 2 (length addr % 2 ^ 16))) [
      | none ↦ none
      | some prepend ↦ elim (write addr_taken addr) [
        | none ↦ none
        | some written ↦ some (prepend ++ written)
      ]
    ]

unfoldable pub fall_back : Taken → Taken → Fallback → Bytes → Outcome
unfolding proxy_header
fall_back prepend_taken addr_taken block addr = blocks
fall_back prepend_taken addr_taken pass_through addr = connects_tcp addr
fall_back prepend_taken addr_taken (simple_proxy remote) addr =
    elim (proxy_header prepend_taken addr_taken addr) [
      | none ↦ bails
      | some header ↦ connects_proxy remote header
    ]

-- read_exact
unfoldable pub read_exact : ℕ → Bytes → Option (Bytes × Bytes)
read_exact n stream = if ltb (length stream) n then none else some (take n stream, drop n stream)

module _ (lossy : Bytes → Bytes) (base32 : Base32) where
  -- The domain of a request. `lossy` is String::from_utf8_lossy.
  unfoldable pub domain_text : SocksV5Host → Option Bytes
  unfolding ipv4_text
  domain_text (domain dom) = some (lossy dom)
  domain_text (ipv4 a b c d) = some (ipv4_text a b c d)
  domain_text (ipv6 bytes) = none

  -- A domain under the top level `haven` names a haven by its first part.
  unfoldable pub haven_outcome : Option Bytes → ℕ → Outcome
  haven_outcome none port = bails
  haven_outcome (some piece) port = elim (fingerprint_from_str base32 piece) [
    | ok fp ↦ connects_haven (fp, port)
    | err e ↦ invalid_address e
    | panic ↦ bails
  ]

  -- socks5_once, after the handshake, and what the writes to a simple proxy take
  unfoldable pub socks5_once : Taken → Taken → Fallback → SocksV5Host → ℕ → Outcome
  unfolding domain_text address fall_back haven_outcome split
  socks5_once prepend_taken addr_taken fallback host port = elim (domain_text host) [
    | none ↦ bails
    | some name ↦
        let pieces = split dot name in
        elim (last_piece pieces) [
          | none ↦ bails
          | some top ↦
              if text_beq top (ascii "haven")
              then haven_outcome (first_piece pieces) port
              else fall_back prepend_taken addr_taken fallback (address name port)
        ]
  ]

  -- The task of `simple_proxy` on what a stream carries: the address that it connects to, and what it copies
  -- there. `none` if the stream ends too early.
  unfoldable pub proxy_stream : Bytes → Option (Bytes × Bytes)
  unfolding read_exact
  proxy_stream stream = elim (read_exact 2 stream) [
    | none ↦ none
    | some (len_buf, after_len) ↦ elim (read_exact (of_be len_buf) after_len) [
      | none ↦ none
      | some (addr_buf, after_addr) ↦ some (lossy addr_buf, after_addr)
    ]
  ]
