-- ===== src/Proxies/Relays.antt =====
-- A SOCKS5 request through the simple proxy of another node goes where it would go directly.
use earendil.Base.{
  ℕ, zero, suc, ◌+◌, ◌*◌, ◌/◌, ◌%◌, ◌^◌, ◌≡◌, ◌<◌, ◌≤◌, refl, sym, ap, ◌∙◌, some, [], ◌∷◌, ◌++◌,
  arith, length, length-append, take, take-append, drop-append, ltb, false, Bool-cases, inl, inr,
  text_eq, List-cases, subst, Option-cases,
}
use mathlib.Core.List.{append_assoc}
use earendil.Crypto.{Bytes, be_bytes, of_be, of_be-be_bytes, length-be_bytes}
use earendil.Daemon.State.{Endpoint}
use earendil.Socket.Endpoints.{Base32, colon, decimal}
use earendil.Proxies.{
  SocksV5Host, domain, ipv4, ipv6, pass_through, simple_proxy, connects_tcp, connects_proxy, dot,
  ipv4_text, domain_text, address, write, proxy_header, fall_back, haven_outcome, socks5_once,
  read_exact, proxy_stream,
}

-- Decimals are no longer than their fuel.
length-decimal : (fuel n : ℕ) (more : Bytes) → length (decimal fuel n more) ≤ fuel + length more
unfolding decimal
length-decimal zero n more = omega arith
length-decimal (suc fuel) n more =
    ground (arith, length-decimal fuel (n / 10) ((48 + n % 10) ∷ more))

abbrev pub IsAscii : Bytes → Type 0
IsAscii [] = Unit
IsAscii (c ∷ cs) = (c < 128) × IsAscii cs

-- What from_utf8_lossy returns is UTF-8, which stays so before ASCII and is then returned unchanged; a byte
-- becomes three at most.
pub record IsLossy (lossy : Bytes → Bytes) : Type 0 where
  pub lossy_twice : (d more : Bytes) → IsAscii more → lossy (lossy d ++ more) ≡ lossy d ++ more
  pub length-lossy : (d : Bytes) → length (lossy d) ≤ 3 * length d

-- The limits of a request.
abbrev pub IsHost : SocksV5Host → Type 0
IsHost (domain dom) = length dom ≤ 255
IsHost (ipv4 a b c d) = (a < 256) × (b < 256) × (c < 256) × (d < 256)
IsHost (ipv6 bytes) = Unit

decimal-IsAscii : (fuel n : ℕ) (more : Bytes) → IsAscii more → IsAscii (decimal fuel n more)
unfolding decimal
decimal-IsAscii zero n more h = h
decimal-IsAscii (suc fuel) n more h = elim (Bool-cases (ltb n 10)) [
  | inl e ↦ rw (decimal, e) (ground (arith, e), h)
  | inr e ↦ rw (decimal, e) (decimal-IsAscii fuel (n / 10) ((48 + n % 10) ∷ more) (ground arith, h))
]

IsAscii-append : (xs ys : Bytes) → IsAscii xs → IsAscii ys → IsAscii (xs ++ ys)
IsAscii-append [] ys h k = k
IsAscii-append (x ∷ xs) ys h k = (h.0, IsAscii-append xs ys h.1 k)

ipv4_text-IsAscii : (a b c d : ℕ) → IsAscii (ipv4_text a b c d)
unfolding ipv4_text
ipv4_text-IsAscii a b c d = decimal-IsAscii 3 a _ (
  omega arith,
  decimal-IsAscii 3 b _
      (omega arith, decimal-IsAscii 3 c _ (omega arith, decimal-IsAscii 3 d [] tt)),
)

length-ipv4_text : (a b c d : ℕ) → length (ipv4_text a b c d) ≤ 15
unfolding ipv4_text
length-ipv4_text a b c d =
    let last = decimal 3 d [] in
    let third = decimal 3 c (dot ∷ last) in
    let second = decimal 3 b (dot ∷ third) in
    omega (
      arith,
      length-decimal 3 d [],
      length-decimal 3 c (dot ∷ last),
      length-decimal 3 b (dot ∷ third),
      length-decimal 3 a (dot ∷ second),
    )

take_whole : (n : ℕ) (xs : Bytes) → length xs ≤ n → take n xs ≡ xs
unfolding take
take_whole zero [] h = refl
take_whole (suc n) [] h = refl
take_whole zero (x ∷ xs) h = absurd (omega arith)
take_whole (suc n) (x ∷ xs) h = ap (◌∷◌ x) (take_whole n xs (omega arith))

read_exact-append : (n : ℕ) (a b : Bytes) → n ≡ length a → read_exact n (a ++ b) ≡ some (a, b)
unfolding read_exact
read_exact-append n a b h =
    let long : ltb (length (a ++ b)) n ≡ false = ground (arith, h, length-append a b) in
    rw (read_exact, long) (rw (take-append n a b h) (rw (drop-append n a b h) refl))

module _ (lossy : Bytes → Bytes) (lawful : IsLossy lossy) (base32 : Base32) where
  lossy_empty : lossy [] ≡ []
  lossy_empty = elim (List-cases (lossy [])) [
    | inl e ↦ e
    | inr (c, rest, e) ↦ absurd (omega (arith, lawful.length-lossy [], ap length e))
  ]

  lossy_ascii : (s : Bytes) → IsAscii s → lossy s ≡ s
  lossy_ascii s h = subst (λ d. lossy (d ++ s) ≡ d ++ s) lossy_empty (lawful.lossy_twice [] s h)

  -- A name of a request: the proxy reads its address as it is, and it is not too long.
  domain_text-address :
      (host : SocksV5Host) (name : Bytes) (port : ℕ)
      → IsHost host
      → domain_text lossy base32 host ≡ some name
      → (lossy (address name port) ≡ address name port) × (length (address name port) < 2 ^ 16)
  unfolding domain_text address
  domain_text-address (domain dom) name port h e =
      let eq : lossy dom ≡ name = ground (arith, e) in
      let tail = decimal 5 port [] in
      let same : lossy (lossy dom ++ colon ∷ tail) ≡ lossy dom ++ colon ∷ tail =
        lawful.lossy_twice dom (colon ∷ tail) (omega arith, decimal-IsAscii 5 port [] tt) in
      let short : length (lossy dom ++ colon ∷ tail) < 2 ^ 16 = omega (
        arith,
        h,
        lawful.length-lossy dom,
        length-append (lossy dom) (colon ∷ tail),
        length-decimal 5 port [],
      ) in
      subst
        (λ n.
          (lossy (n ++ colon ∷ tail) ≡ n ++ colon ∷ tail) × (length (n ++ colon ∷ tail) < 2 ^ 16))
        eq (same, short)
  domain_text-address (ipv4 a b c d) name port h e =
      let eq : ipv4_text a b c d ≡ name = ground (arith, e) in
      let tail = decimal 5 port [] in
      let text = ipv4_text a b c d in
      let same : lossy (text ++ colon ∷ tail) ≡ text ++ colon ∷ tail =
        lossy_ascii (text ++ colon ∷ tail) (
          IsAscii-append text (colon ∷ tail) (ipv4_text-IsAscii a b c d)
            (omega arith, decimal-IsAscii 5 port [] tt)) in
      let short : length (text ++ colon ∷ tail) < 2 ^ 16 = omega (
        arith,
        length-ipv4_text a b c d,
        length-append text (colon ∷ tail),
        length-decimal 5 port [],
      ) in
      subst
        (λ n.
          (lossy (n ++ colon ∷ tail) ≡ n ++ colon ∷ tail) × (length (n ++ colon ∷ tail) < 2 ^ 16))
        eq (same, short)
  domain_text-address (ipv6 bytes) name port h e = absurd (cc)

  -- A header that is written whole.
  abbrev whole_header : Bytes → Bytes
  whole_header addr = be_bytes 2 (length addr % 2 ^ 16) ++ addr

  proxy_header-whole :
      (n m : ℕ) (addr : Bytes)
      → 2 ≤ n
      → length addr ≤ m
      → proxy_header (some n) (some m) addr ≡ some (whole_header addr)
  unfolding proxy_header write
  proxy_header-whole n m addr h k =
      let head = be_bytes 2 (length addr % 2 ^ 16) in
      rw
        (
          take_whole n head (omega (arith, h, length-be_bytes 2 (length addr % 2 ^ 16))),
          take_whole m addr k,
        )
        refl

  -- What the other node reads of a stream that starts with a header.
  proxy_stream-header :
      (addr rest : Bytes)
      → lossy addr ≡ addr
      → length addr < 2 ^ 16
      → proxy_stream lossy base32 (whole_header addr ++ rest) ≡ some (addr, rest)
  unfolding proxy_stream
  proxy_stream-header addr rest same short =
      let n = length addr % 2 ^ 16 in
      let head = be_bytes 2 n in
      let first : read_exact 2 ((head ++ addr) ++ rest) ≡ some (head, addr ++ rest) =
        ap (read_exact 2) (append_assoc head addr rest)
        ∙ read_exact-append 2 head (addr ++ rest) (sym (length-be_bytes 2 n)) in
      let second : read_exact (of_be head) (addr ++ rest) ≡ some (addr, rest) =
        read_exact-append (of_be head) addr rest
          (of_be-be_bytes 2 n (omega arith) ∙ omega (arith, short)) in
      rw (proxy_stream, first) (rw second (rw same refl))

  passes_through :
      (n m : ℕ) (host : SocksV5Host) (port : ℕ) (addr : Bytes) (remote : Endpoint)
      → 2 ≤ n
      → length addr ≤ m
      → socks5_once lossy base32 (some n) (some m) pass_through host port ≡ connects_tcp addr
      → (name : Bytes) × (domain_text lossy base32 host ≡ some name)
        × (addr ≡ address name port)
        × (socks5_once lossy base32 (some n) (some m) (simple_proxy remote) host port
            ≡ connects_proxy remote (whole_header (address name port)))
  unfolding socks5_once fall_back haven_outcome
  passes_through n m host port addr remote two long h =
      elim (Option-cases (domain_text lossy base32 host)) [
        | inl e ↦ absurd (ground (arith, h, e))
        | inr (name, e) ↦
            let same : addr ≡ address name port = ground (arith, h, e) in
            let header =
              proxy_header-whole n m (address name port) two
                (subst (λ a. length a ≤ m) same long) in
            (name, e, same, ground (arith, h, e, header))
      ]

  -- If from_utf8_lossy leaves alone what it returned, before ASCII too, and makes three bytes of one at most, the
  -- host is of a valid request, and both writes of the header take all their bytes: a request that goes directly to an address if requests pass through goes, with a
  -- simple proxy as fallback, over a stream to it; and whatever the client sends then, the proxy connects to the
  -- same address and hands on exactly what the client sends.
  pub proxy_stream-socks5_once :
      (n m : ℕ) (host : SocksV5Host) (port : ℕ) (addr : Bytes) (remote : Endpoint)
      → 2 ≤ n
      → length addr ≤ m
      → IsHost host
      → socks5_once lossy base32 (some n) (some m) pass_through host port ≡ connects_tcp addr
      → (header : Bytes) × (socks5_once lossy base32
            (some n)
            (some m)
            (simple_proxy remote)
            host
            port
          ≡ connects_proxy remote header)
        × ((sent : Bytes) → proxy_stream lossy base32 (header ++ sent) ≡ some (addr, sent))
  proxy_stream-socks5_once n m host port addr remote two long valid h =
      let (name, named, same, proxied) = passes_through n m host port addr remote two long h in
      let read = domain_text-address host name port valid named in
      (
        whole_header (address name port),
        proxied,
        λ sent.
            proxy_stream-header (address name port) sent read.0 read.1
            ∙ ap (λ a. some (a, sent)) (sym same),
      )
