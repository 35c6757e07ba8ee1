-- ===== src/Tests/Havens.antt =====
-- A haven that is looked up and written to, with the toy ciphers.
use earendil.Base.{ℕ, ◌≡◌, true, false, Option, none, some, List, [], ◌∷◌, Map, ok, nat_eq}
use earendil.Crypto.{Bytes, fingerprint, public}
use earendil.Havens.Locators.{HavenLocator, HavenCode, new_locator}
use earendil.Havens.Table.{HavenState, DhtAnswer, located, rpc_dht_get, rpc_dht_insert}
use earendil.Havens.Genuine.{IsSound, Finds, start, start-IsSound, rpc_dht_get-Finds}
use earendil.Havens.Serving.{
  here, then_serves, inserts, Reaches-IsSound, rpc_dht_get-rpc_dht_insert,
}
use earendil.Havens.Forward.{ForwardCode}
use earendil.Tests.Ciphers.{ciphers, ciphers-IsLawful}
use earendil.Tests.Graphs.{linked}

abbrev pub haven_code : HavenCode
haven_code = record {
  locator = λ l. l.identity_pk ∷ l.onion_pk ∷ l.rendezvous_point ∷ [];
  registration = λ r. r.identity_pk ∷ r.unix_timestamp ∷ [];
}

abbrev rank : ℕ → ℕ → ℕ
rank key fp = fp

abbrev pub locator : HavenLocator
locator = new_locator ciphers haven_code 7 17 2

-- Every replica has the locator.
abbrev ask : ℕ → DhtAnswer
ask replica = located locator

abbrev as_sent : List DhtAnswer → List DhtAnswer
as_sent answers = answers

rpc_dht_get-Finds_example :
    Finds ciphers haven_code
      (fingerprint ciphers 7)
      (rpc_dht_get ciphers haven_code rank linked ask as_sent (fingerprint ciphers 7) true start)
rpc_dht_get-Finds_example =
    rpc_dht_get-Finds ciphers haven_code rank linked ask as_sent (fingerprint ciphers 7) true start
      (start-IsSound ciphers haven_code)

abbrev kept : HavenState
kept = (rpc_dht_insert ciphers haven_code rank linked locator false start).1

Reaches-IsSound_example : IsSound ciphers haven_code kept
Reaches-IsSound_example =
    Reaches-IsSound ciphers haven_code rank linked kept
      (then_serves start start kept (here start) (inserts locator false start))

rpc_dht_get-rpc_dht_insert_example :
    let l = new_locator ciphers haven_code 7 17 2 in
    let k = rpc_dht_insert ciphers haven_code rank linked l false start in
    (k.0 ≡ ok tt)
    × (rpc_dht_get ciphers haven_code rank linked ask as_sent
          (fingerprint ciphers (public ciphers 7))
          true
          k.1
        ≡ (ok (some l), k.1))
rpc_dht_get-rpc_dht_insert_example =
    rpc_dht_get-rpc_dht_insert ciphers haven_code rank linked ciphers-IsLawful ask as_sent true 7 17
      2 start

-- A body is sent with the endpoint before it.
abbrev pub unpack : Bytes → Option (Bytes × (ℕ × ℕ))
unpack (fp ∷ dock ∷ body) = some (body, (fp, dock))
unpack (fp ∷ []) = none
unpack [] = none

abbrev pub packed : ForwardCode
packed = record { encode_forward = λ p. p.1.0 ∷ p.1.1 ∷ p.0; decode_forward = unpack }

abbrev havens : Map ℕ (Unit {0})
havens = (7, tt) ∷ []
