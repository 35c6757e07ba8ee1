-- ===== src/Tests/Ciphers.antt =====
-- Toy primitives that keep the laws which the development asks of the cryptography crates.
use mathlib.Core.List.{reverse}
use earendil.Base.{
  ℕ, zero, suc, ◌+◌, ◌-◌, ◌%◌, ◌≡◌, refl, ap, ◌∙◌, true, Option, none, some, [], ◌∷◌, ◌++◌, map,
  arith, length, take, drop, replicate, length-append, length-take, length-replicate, length-map,
  take-append, drop-append, if◌then◌else◌,
}
use earendil.Crypto.{Bytes, Primitives, IsLawful, IsBytes}
use earendil.Packet.Raw.{bytes_beq}

-- The first n bytes, filled up with zeros.
abbrev pub fill : ℕ → Bytes → Bytes
fill n bs = take n (bs ++ replicate n 0)

length-fill : (n : ℕ) (bs : Bytes) → length (fill n bs) ≡ n
length-fill n bs = omega (
  arith,
  length-take n (bs ++ replicate n 0),
  length-append bs (replicate n 0),
  length-replicate {A = ℕ} n 0,
)

abbrev pub flip : ℕ → ℕ
flip zero = 1
flip (suc zero) = 0
flip (suc (suc n)) = suc (suc n)

flip_twice : (n : ℕ) → flip (flip n) ≡ n
flip_twice zero = refl
flip_twice (suc zero) = refl
flip_twice (suc (suc n)) = refl

flips : (bs : Bytes) → map flip (map flip bs) ≡ bs
flips [] = refl
flips (b ∷ bs) = rw (flip_twice b, flips bs)

take-map : (n : ℕ) (bs : Bytes) → take n (map flip bs) ≡ map flip (take n bs)
unfolding take
take-map zero bs = refl
take-map (suc n) [] = refl
take-map (suc n) (b ∷ bs) = rw (take-map n bs)

abbrev pub bytes : Bytes → Bytes
bytes = map (λ b. b % 256)

bytes-IsBytes : (bs : Bytes) → IsBytes (bytes bs)
bytes-IsBytes [] = tt
bytes-IsBytes (b ∷ bs) = (omega arith, bytes-IsBytes bs)

bytes_beq_refl : (bs : Bytes) → bytes_beq bs bs ≡ true
unfolding bytes_beq
bytes_beq_refl [] = refl
bytes_beq_refl (b ∷ bs) = ground (arith, bytes_beq_refl bs)

abbrev pub open_with : Bytes → Bytes → Option Bytes
open_with key c =
    if bytes_beq (drop (length c - 16) c) (fill 16 key) then some (take (length c - 16) c) else none

open_with-fill : (key p : Bytes) → open_with key (p ++ fill 16 key) ≡ some p
open_with-fill key p =
    let n : length (p ++ fill 16 key) - 16 ≡ length p =
      omega (arith, length-append p (fill 16 key), length-fill 16 key) in
    rw (
      n,
      take-append (length p) p (fill 16 key) refl,
      drop-append (length p) p (fill 16 key) refl,
      bytes_beq_refl (fill 16 key),
    )

abbrev pub ciphers : Primitives
ciphers = record {
  hash = λ m. m;
  keyed_hash = λ k m. bytes (fill 32 (reverse m));
  signing_public = λ sk. sk;
  signing_sign = λ sk m. fill 64 (sk ∷ m);
  is_point = λ pk. true;
  signature_matches = λ pk m sig. bytes_beq sig (fill 64 (pk ∷ m));
  exchange_public = λ sk. sk % 256;
  diffie_hellman = λ a b. (a % 256 + b) ∷ [];
  aead_encrypt = λ k n p. p ++ fill 16 k;
  aead_decrypt = λ k n c. open_with k c;
  apply_keystream = λ k n p. map flip p;
}

pub ciphers-IsLawful : IsLawful ciphers
ciphers-IsLawful = record {
  length-keyed_hash =
      λ k m. length-map (fill 32 (reverse m)) (λ b. b % 256) ∙ length-fill 32 (reverse m);
  keyed_hash-IsBytes = λ k m. bytes-IsBytes (fill 32 (reverse m));
  is_point-public = λ sk. refl;
  length-sign = λ sk m. length-fill 64 (sk ∷ m);
  matches-sign = λ sk m. bytes_beq_refl (fill 64 (sk ∷ m));
  exchange_public-lt = λ sk. omega arith;
  exchange_comm = λ a b. ap (λ x. x ∷ []) (omega arith);
  length-encrypt = λ k n p. length-append p (fill 16 k) ∙ ap (λ x. length p + x) (length-fill 16 k);
  decrypt-encrypt = λ k n p. open_with-fill k p;
  length-keystream = λ k n p. length-map p flip;
  keystream_twice = λ k n p. flips p;
  take-keystream = λ i k n p. take-map i p;
}
