-- ===== src/Tests/Coder.antt =====
-- A toy coder for payloads that keeps what the development asks of bincode.
use earendil.Base.{
  ℕ, zero, suc, ◌+◌, ◌<◌, ◌≡◌, refl, Option, none, some, List, [], ◌∷◌, ◌++◌, arith, length, take,
  drop, length-append, take-append, drop-append,
}
use earendil.Crypto.{Bytes}
use earendil.Packet.Types.{ReplyBlock, InnerPacket, Codec, IsCodec}
use mathlib.Core.List.{append_assoc}

-- Chunks, each behind the successor of its length, and a zero after the last.
abbrev pub write : List Bytes → Bytes
write [] = 0 ∷ []
write (c ∷ cs) = suc (length c) ∷ c ++ write cs

abbrev pub and_then : Bytes → Option (List Bytes) → Option (List Bytes)
and_then c none = none
and_then c (some cs) = some (c ∷ cs)

abbrev pub read : ℕ → Bytes → Option (List Bytes)
read zero bs = none
read (suc fuel) [] = none
read (suc fuel) (zero ∷ bs) = some []
read (suc fuel) (suc n ∷ bs) = and_then (take n bs) (read fuel (drop n bs))

read-write :
    (fuel : ℕ) (cs : List Bytes) (rest : Bytes)
    → length cs < fuel
    → read fuel (write cs ++ rest) ≡ some cs
read-write zero cs rest h = absurd (omega arith)
read-write (suc fuel) [] rest h = refl
read-write (suc fuel) (c ∷ cs) rest h = rw (
  append_assoc c (write cs) rest,
  take-append (length c) c (write cs ++ rest) refl,
  drop-append (length c) c (write cs ++ rest) refl,
  read-write fuel cs rest (omega arith),
)

length-write : (cs : List Bytes) → length cs < length (write cs)
length-write [] = omega arith
length-write (c ∷ cs) = omega (arith, length-write cs, length-append c (write cs))

abbrev pub block_chunks : List ReplyBlock → List Bytes
block_chunks [] = []
block_chunks (b ∷ bs) = b.header.outer ∷ b.header.inner ∷ (b.e2e_dest ∷ []) ∷ block_chunks bs

abbrev pub chunks : InnerPacket → List Bytes
chunks (InnerPacket.message m) = (0 ∷ m.source_dock ∷ m.dest_dock ∷ []) ∷ m.body
chunks (InnerPacket.reply_blocks bs) = (1 ∷ []) ∷ block_chunks bs

abbrev pub blocks : List Bytes → List ReplyBlock
blocks (outer ∷ inner ∷ (dest ∷ []) ∷ cs) =
    record { header = record { outer = outer; inner = inner }; e2e_dest = dest } ∷ blocks cs
blocks _ = []

abbrev pub of_chunks : List Bytes → Option InnerPacket
of_chunks ((zero ∷ s ∷ d ∷ []) ∷ body) =
    some (InnerPacket.message (record { source_dock = s; dest_dock = d; body = body }))
of_chunks ((suc zero ∷ []) ∷ cs) = some (InnerPacket.reply_blocks (blocks cs))
of_chunks _ = none

blocks-block_chunks : (bs : List ReplyBlock) → blocks (block_chunks bs) ≡ bs
blocks-block_chunks [] = refl
blocks-block_chunks (b ∷ bs) = rw (blocks-block_chunks bs)

of_chunks-chunks : (p : InnerPacket) → of_chunks (chunks p) ≡ some p
of_chunks-chunks (InnerPacket.message m) = refl
of_chunks-chunks (InnerPacket.reply_blocks bs) = rw (blocks-block_chunks bs)

abbrev pub parsed : Option (List Bytes) → Option InnerPacket
parsed none = none
parsed (some cs) = of_chunks cs

abbrev pub coder : Codec
coder = record {
  serialize = λ p. write (chunks p);
  deserialize = λ bs. parsed (read (length bs) bs);
}

pub coder-IsCodec : IsCodec coder
coder-IsCodec = record {
  deserialize-serialize = λ p rest. rw (
    read-write (length (write (chunks p) ++ rest)) (chunks p) rest
        (omega (arith, length-write (chunks p), length-append (write (chunks p)) rest)),
    of_chunks-chunks p,
  );
}

-- How long an encoded message with one line of text is.
pub length-serialize_lem :
    (s d : ℕ) (line : Bytes)
    → length (
        coder.serialize
          (InnerPacket.message (record { source_dock = s; dest_dock = d; body = line ∷ [] })))
      ≡ 6 + length line
length-serialize_lem s d line = omega (arith, length-append line (0 ∷ []))
