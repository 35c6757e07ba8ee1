-- ===== src/Packet/Raw/Build.antt =====
-- What `RawPacket::new` returns, and that the header it builds carries every layer.
use earendil.Base.{
  ℕ, suc, ◌≤◌, ◌<◌, ◌≡◌, refl, sym, ap, ◌∙◌, List, [], ◌∷◌, ◌++◌, map, arith, length, drop,
  replicate, take, length-append, length-take, length-map, take-take, take-append_le, take-append,
  drop-append, Result, ok,
}
use earendil.Crypto.{Bytes, Primitives, IsLawful, be_bytes, length-be_bytes}
use earendil.Packet.Types.{
  RawPacket, ForwardInstruction, InnerPacket, PacketConstructError, Codec, outer_len, inner_len,
}
use earendil.Packet.Crypt.{
  zero_nonce, onion_public, shared_secret, box_encrypt, stream_dencrypt, length-box_encrypt,
  box_encrypt_secret,
}
use earendil.Packet.Inner.{encode}
use earendil.Packet.Reply.{degarble_body}
use earendil.Packet.Raw.{to_array, header_bytes, body_key, header_key, last_layer, wrap_layer, new}
use earendil.Packet.Raw.Layers.{
  Hop, peeled, hop_secret, hop_box, Carries, reach, length-peeled, Carries-take,
}

module _ (prim : Primitives) (codec : Codec) where
  -- The instructions for a route, as they are made from its relays' public keys.
  abbrev pub instruct : Hop → ForwardInstruction
  instruct hop = record { this_pubkey = onion_public prim hop.secret; next_fingerprint = hop.next }

  pub degarble_body-append :
      (xs ys : List Bytes) (raw : Bytes)
      → degarble_body prim codec (xs ++ ys) raw
        ≡ degarble_body prim codec ys (degarble_body prim codec xs raw)
  unfolding degarble_body
  degarble_body-append [] ys raw = refl
  degarble_body-append (x ∷ xs) ys raw =
      degarble_body-append xs ys (stream_dencrypt prim (body_key prim codec x) zero_nonce raw)

module _ (prim : Primitives) (codec : Codec) (lawful : IsLawful prim) (eph : ℕ → ℕ) (dest : ℕ)
    (metadata : Bytes) (payload : InnerPacket) (isk : ℕ) (garbage sealed : Bytes)
    (size : length metadata ≡ 20) (noise : length garbage ≡ 621)
    (encoded : encode prim codec payload isk ≡ ok sealed) where
  abbrev pub build : List Hop → Result PacketConstructError (RawPacket × List Bytes)
  build hops =
      new prim codec (map (instruct prim codec) hops) (onion_public prim dest) payload metadata isk
        eph garbage

  -- A packet under way: a whole header that carries the layers, and a body in all the keys.
  pub record IsBuilt (hops : List Hop) (pkt : RawPacket) (secs : List Bytes) : Type 0 where
    pub outer_size : length pkt.header.outer ≡ 69
    pub inner_size : length pkt.header.inner ≡ 621
    pub carries : Carries prim codec eph dest metadata hops (header_bytes pkt.header) secs
    pub body : pkt.onion_body ≡ degarble_body prim codec secs sealed

  last_layer_lem :
      last_layer prim codec (onion_public prim dest) payload metadata isk (eph 0) garbage
      ≡ ok (
        record {
          header = record {
            outer = (box_encrypt prim (0 ∷ metadata) (onion_public prim dest) (eph 0)).0;
            inner = garbage;
          };
          onion_body =
              stream_dencrypt prim
                (body_key prim codec (shared_secret prim (eph 0) (onion_public prim dest)))
                zero_nonce
                sealed;
        },
        shared_secret prim (eph 0) (onion_public prim dest) ∷ [],
      )
  unfolding last_layer to_array
  last_layer_lem =
      rw
        (
          encoded,
          box_encrypt_secret,
          length-box_encrypt prim lawful (0 ∷ metadata) (onion_public prim dest) (eph 0),
          size,
        )
        refl

  last_layer-IsBuilt :
      (pkt : RawPacket) × (secs : List Bytes) × (build [] ≡ ok (pkt, secs)) × IsBuilt [] pkt secs
  unfolding new header_bytes degarble_body
  last_layer-IsBuilt =
      let boxed = (box_encrypt prim (0 ∷ metadata) (onion_public prim dest) (eph 0)).0 in
      let boxed_size : length boxed ≡ 69 =
        omega
          (arith, length-box_encrypt prim lawful (0 ∷ metadata) (onion_public prim dest) (eph 0)) in
      (
        _,
        _,
        last_layer_lem,
        record {
          outer_size = boxed_size;
          inner_size = noise;
          carries = (take-append outer_len boxed garbage (sym boxed_size), refl);
          body = refl;
        },
      )

  -- The packet of the next layer in one more layer.
  abbrev wrapped : Hop → ℕ → RawPacket → RawPacket
  wrapped hop n next = record {
    header = record {
      outer = hop_box prim codec eph dest metadata n hop;
      inner =
          stream_dencrypt prim
            (header_key prim codec (hop_secret prim codec eph dest metadata n hop)) zero_nonce
            (take inner_len (header_bytes next.header));
    };
    onion_body =
        stream_dencrypt prim (body_key prim codec (hop_secret prim codec eph dest metadata n hop))
          zero_nonce next.onion_body;
  }

  length-hop_box : (n : ℕ) (hop : Hop) → length (hop_box prim codec eph dest metadata n hop) ≡ 69
  length-hop_box n hop = omega (
    arith,
    length-box_encrypt prim lawful (1 ∷ be_bytes 20 hop.next) (onion_public prim hop.secret)
        (eph n),
    length-be_bytes 20 hop.next,
  )

  wrap_layer_lem :
      (hop : Hop) (n : ℕ) (next : RawPacket) (secs : List Bytes)
      → wrap_layer prim codec (instruct prim codec hop) (eph n) (next, secs)
        ≡ ok (wrapped hop n next, secs ++ hop_secret prim codec eph dest metadata n hop ∷ [])
  unfolding wrap_layer to_array
  wrap_layer_lem hop n next secs = rw (box_encrypt_secret, length-hop_box n hop) refl

  -- The first bytes of a header that was shifted, encrypted and boxed come back by one peeling.
  intact_bytes :
      (key box bytes pad : Bytes) (m : ℕ)
      → 69 ≡ length box
      → length bytes ≡ 690
      → m ≤ 621
      → take m (
          prim.apply_keystream key zero_nonce (
            drop outer_len (box ++ prim.apply_keystream key zero_nonce (take inner_len bytes))
            ++ pad))
        ≡ take m bytes
  intact_bytes key box bytes pad m b l h =
      let inner = prim.apply_keystream key zero_nonce (take inner_len bytes) in
      rw (drop-append 69 box inner b) (
        lawful.take-keystream m key zero_nonce (inner ++ pad)
        ∙ ap (prim.apply_keystream key zero_nonce) (
            take-append_le m inner pad (
              omega (
                arith,
                lawful.length-keystream key zero_nonce (take inner_len bytes),
                length-take inner_len bytes,
              ))
            ∙ lawful.take-keystream m key zero_nonce (take inner_len bytes))
        ∙ lawful.keystream_twice key zero_nonce (take m (take inner_len bytes))
        ∙ take-take m inner_len bytes h)

  wrapped-IsBuilt :
      (hop : Hop) (hops : List Hop) (next : RawPacket) (secs : List Bytes)
      → length hops < 9
      → IsBuilt hops next secs
      → IsBuilt
          (hop ∷ hops)
          (wrapped hop (suc (length hops)) next)
          (secs ++ hop_secret prim codec eph dest metadata (suc (length hops)) hop ∷ [])
  unfolding header_bytes stream_dencrypt peeled degarble_body
  wrapped-IsBuilt hop hops next secs h b =
      let n = suc (length hops) in
      let sec = hop_secret prim codec eph dest metadata n hop in
      let key = header_key prim codec sec in
      let box = hop_box prim codec eph dest metadata n hop in
      let bytes = header_bytes next.header in
      let inner = prim.apply_keystream key zero_nonce (take inner_len bytes) in
      let bytes_size : length bytes ≡ 690 =
        omega
          (arith, length-append next.header.outer next.header.inner, b.outer_size, b.inner_size) in
      let inner_size : length inner ≡ 621 = omega (
        arith,
        lawful.length-keystream key zero_nonce (take inner_len bytes),
        length-take inner_len bytes,
      ) in
      let whole : length (box ++ inner) ≡ 690 =
        omega (arith, length-append box inner, length-hop_box n hop) in
      let m = reach prim codec eph dest metadata hops in
      let intact : take m (peeled prim codec eph dest metadata sec (box ++ inner)) ≡ take m bytes =
        intact_bytes key box bytes (replicate outer_len 0) m (sym (length-hop_box n hop)) bytes_size
          (omega arith) in
      record {
        outer_size = length-hop_box n hop;
        inner_size = inner_size;
        carries = (
          take-append outer_len box inner (sym (length-hop_box n hop)),
          secs,
          refl,
          Carries-take prim codec eph dest metadata lawful hops bytes
              (peeled prim codec eph dest metadata sec (box ++ inner)) secs bytes_size
              (length-peeled prim codec eph dest metadata lawful sec (box ++ inner) whole)
              (omega arith) (sym intact) b.carries,
        );
        body =
            ap (prim.apply_keystream (body_key prim codec sec) zero_nonce) b.body
            ∙ sym (degarble_body-append prim codec secs (sec ∷ []) sealed);
      }

  -- Up to nine hops `new` succeeds, and what it returns carries every layer.
  pub built :
      (hops : List Hop)
      → length hops < 10
      → (pkt : RawPacket) × (secs : List Bytes) × (build hops ≡ ok (pkt, secs))
        × IsBuilt hops pkt secs
  unfolding new
  built [] h = last_layer-IsBuilt
  built (hop ∷ hops) h =
      let (next, secs, made, b) = built hops (omega arith) in
      let n = suc (length hops) in
      (
        wrapped hop n next,
        secs ++ hop_secret prim codec eph dest metadata n hop ∷ [],
        ground (arith, made, wrap_layer_lem hop n next secs, length-map hops (instruct prim codec)),
        wrapped-IsBuilt hop hops next secs (omega arith) b,
      )
