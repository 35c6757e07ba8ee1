-- ===== src/Tests/Proxies.antt =====
-- A request for a.b at port 80, with a simple proxy as fallback.
use earendil.Base.{◌++◌, ◌≡◌, refl, some, [], ◌∷◌, arith, text_beq}
use earendil.Crypto.{Bytes, ascii}
use earendil.Socket.Endpoints.{decimal}
use earendil.Proxies.{domain, simple_proxy, connects_proxy, socks5_once, proxy_stream}
use earendil.Proxies.Relays.{IsLossy, proxy_stream-socks5_once}
use earendil.Tests.Controls.{base_256}

abbrev as_is : Bytes → Bytes
as_is s = s

as_is-IsLossy : IsLossy as_is
as_is-IsLossy = record { lossy_twice = λ d more h. refl; length-lossy = λ d. omega arith }

abbrev dotted : Bytes
dotted = 97 ∷ 46 ∷ 98 ∷ []

proxy_stream-socks5_once_example :
    (header : Bytes) × (socks5_once as_is base_256
        (some 2)
        (some 9)
        (simple_proxy (1, 2))
        (domain dotted)
        80
      ≡ connects_proxy (1, 2) header)
    × ((sent : Bytes)
        → proxy_stream as_is base_256 (header ++ sent)
          ≡ some (97 ∷ 46 ∷ 98 ∷ 58 ∷ 56 ∷ 48 ∷ [], sent))
unfolding socks5_once text_beq ascii decimal
proxy_stream-socks5_once_example =
    proxy_stream-socks5_once as_is as_is-IsLossy base_256 2 9 (domain dotted) 80
      (97 ∷ 46 ∷ 98 ∷ 58 ∷ 56 ∷ 48 ∷ []) (1, 2) (omega arith) (omega arith) (omega arith) refl
