-- ===== src/Packet/Raw/Layers.antt =====
-- What a header carries for the hops ahead, and how much of it they read: a header of which only
-- the first 69 bytes for each layer ahead are intact leads just as far.
use earendil.Base.{
  ℕ, suc, ◌+◌, ◌*◌, ◌≤◌, ◌<◌, ◌≡◌, sym, ap, ◌∙◌, List, [], ◌∷◌, ◌++◌, arith, length, take, drop,
  replicate, length-append, length-replicate, length-drop, take-take, take-drop, take-append_le,
}
use earendil.Crypto.{Bytes, Primitives, IsLawful, be_bytes}
use earendil.Packet.Types.{outer_len}
use earendil.Packet.Crypt.{zero_nonce, onion_public, shared_secret, box_encrypt, stream_dencrypt}
use earendil.Packet.Raw.{header_key}
use earendil.Packet.Types.{Codec}

-- A hop: the secret key of the relay, and the fingerprint of the one behind it.
pub record Hop : Type 0 where
  pub secret : ℕ
  pub next : ℕ

module _ (prim : Primitives) (codec : Codec) (eph : ℕ → ℕ) (dest : ℕ) (metadata : Bytes) where
  -- What `peel` makes of the bytes of a header.
  unfoldable pub peeled : Bytes → Bytes → Bytes
  peeled shared_sec bytes =
      stream_dencrypt prim (header_key prim codec shared_sec) zero_nonce
        (drop outer_len bytes ++ replicate outer_len 0)

  abbrev pub hop_secret : ℕ → Hop → Bytes
  hop_secret n hop = shared_secret prim (eph n) (onion_public prim hop.secret)

  abbrev pub hop_box : ℕ → Hop → Bytes
  hop_box n hop =
      (box_encrypt prim (1 ∷ be_bytes 20 hop.next) (onion_public prim hop.secret) (eph n)).0

  -- The header opens with one box after the other, up to the box for the destination.
  abbrev pub Carries : List Hop → Bytes → List Bytes → Type 0
  Carries [] bytes secs =
      (take outer_len bytes ≡ (box_encrypt prim (0 ∷ metadata) (onion_public prim dest) (eph 0)).0)
      × (secs ≡ shared_secret prim (eph 0) (onion_public prim dest) ∷ [])
  Carries (hop ∷ hops) bytes secs =
      (take outer_len bytes ≡ hop_box (suc (length hops)) hop)
      × (secs' : List Bytes) × (secs ≡ secs' ++ hop_secret (suc (length hops)) hop ∷ [])
      × Carries hops (peeled (hop_secret (suc (length hops)) hop) bytes) secs'

  -- The bytes that the hops ahead read: a box for each of them and one for the destination.
  abbrev pub reach : List Hop → ℕ
  reach hops = 69 * (length hops + 1)

  module _ (lawful : IsLawful prim) where
    pub length-peeled : (s bytes : Bytes) → length bytes ≡ 690 → length (peeled s bytes) ≡ 690
    unfolding peeled stream_dencrypt
    length-peeled s bytes h =
        let input = drop outer_len bytes ++ replicate outer_len 0 in
        omega (
          arith,
          lawful.length-keystream (header_key prim codec s) zero_nonce input,
          length-append (drop outer_len bytes) (replicate outer_len 0),
          length-drop outer_len bytes,
          length-replicate {A = ℕ} outer_len 0,
        )

    -- Peeling moves the intact bytes 69 places to the front.
    pub take-peeled :
        (n : ℕ) (s bytes : Bytes)
        → length bytes ≡ 690
        → n ≤ 621
        → take n (peeled s bytes)
          ≡ stream_dencrypt prim
              (header_key prim codec s)
              zero_nonce
              (drop outer_len (take (69 + n) bytes))
    unfolding peeled stream_dencrypt
    take-peeled n s bytes size h =
        let key = header_key prim codec s in
        let rest = drop outer_len bytes in
        lawful.take-keystream n key zero_nonce (rest ++ replicate outer_len 0)
        ∙ ap (prim.apply_keystream key zero_nonce) (
            take-append_le n rest (replicate outer_len 0)
              (omega (arith, length-drop outer_len bytes))
            ∙ take-drop n outer_len bytes)

    take-outer :
        (n : ℕ) (a b : Bytes) → 69 ≤ n → take n a ≡ take n b → take outer_len a ≡ take outer_len b
    take-outer n a b h e =
        sym (take-take outer_len n a h) ∙ ap (take outer_len) e ∙ take-take outer_len n b h

    -- Only the bytes within reach of the hops ahead count.
    pub Carries-take :
        (hops : List Hop) (a b : Bytes) (secs : List Bytes)
        → length a ≡ 690
        → length b ≡ 690
        → length hops < 10
        → take (reach hops) a ≡ take (reach hops) b
        → Carries hops a secs
        → Carries hops b secs
    Carries-take [] a b secs la lb h e (opens, s) =
        (sym (take-outer (reach []) a b (omega arith) e) ∙ opens, s)
    Carries-take (hop ∷ hops) a b secs la lb h e (opens, secs', s, ahead) =
        let sec = hop_secret (suc (length hops)) hop in
        let same : take (69 + reach hops) a ≡ take (69 + reach hops) b =
          let k : 69 + reach hops ≡ reach (hop ∷ hops) = omega arith in rw k e in
        (
          sym (take-outer (reach (hop ∷ hops)) a b (omega arith) e) ∙ opens,
          secs',
          s,
          Carries-take hops (peeled sec a) (peeled sec b) secs' (length-peeled sec a la)
              (length-peeled sec b lb) (omega arith)
              (take-peeled (reach hops) sec a la (omega arith)
                ∙ ap
                    (λ t.
                      stream_dencrypt prim (header_key prim codec sec) zero_nonce
                        (drop outer_len t))
                    same
                ∙ sym (take-peeled (reach hops) sec b lb (omega arith)))
              ahead,
        )
