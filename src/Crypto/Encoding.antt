-- ===== src/Crypto/Encoding.antt =====
-- Byte arrays. A fixed-length array that the program compares or orders is the number that its
-- bytes spell, big-endian: on arrays of one length Rust's derived order is the order of numbers.
use Prim.Native.Char.{code}
use Prim.Native.String.{String}
use mathlib.Core.List.{reverse, reverse-reverse, reverse-cons}
use native.Mathlib.Nat.{pow-suc}
use earendil.Base.{
  ℕ, zero, suc, ◌+◌, ◌*◌, ◌/◌, ◌%◌, ◌^◌, ◌<◌, ◌≡◌, refl, ap, List, [], ◌∷◌, ◌++◌, arith, length,
  length-append, take,
}

abbrev pub Bytes : Type 0
Bytes = List ℕ

-- The bytes of a literal.
unfoldable pub ascii : String → Bytes
ascii String.[] = []
ascii (String.◌∷◌ c s) = code c ∷ ascii s

-- `to_le_bytes` and `to_be_bytes` of an integer of n bytes.
unfoldable pub le_bytes : ℕ → ℕ → Bytes
le_bytes zero x = []
le_bytes (suc n) x = x % 256 ∷ le_bytes n (x / 256)

unfoldable pub of_le : Bytes → ℕ
of_le [] = 0
of_le (b ∷ bs) = b + 256 * of_le bs

unfoldable pub be_bytes : ℕ → ℕ → Bytes
unfolding le_bytes
be_bytes n x = reverse (le_bytes n x)

unfoldable pub of_be : Bytes → ℕ
unfolding of_le
of_be bs = of_le (reverse bs)

of_le-le_bytes : (n x : ℕ) → x < 256 ^ n → of_le (le_bytes n x) ≡ x
unfolding le_bytes of_le
of_le-le_bytes zero x h = omega arith
of_le-le_bytes (suc n) x h =
    omega (arith, of_le-le_bytes n (x / 256) (omega (arith, pow-suc 256 n)))

pub of_be-be_bytes : (n x : ℕ) → x < 256 ^ n → of_be (be_bytes n x) ≡ x
unfolding be_bytes of_be
of_be-be_bytes n x h = rw (reverse-reverse (le_bytes n x)) (of_le-le_bytes n x h)

length-le_bytes : (n x : ℕ) → length (le_bytes n x) ≡ n
unfolding le_bytes
length-le_bytes zero x = refl
length-le_bytes (suc n) x = ap suc (length-le_bytes n (x / 256))

length-reverse : (xs : Bytes) → length (reverse xs) ≡ length xs
length-reverse [] = refl
length-reverse (x ∷ xs) =
    omega
      (arith, ap length (reverse-cons x xs), length-append (reverse xs) (x ∷ []), length-reverse xs)

pub length-be_bytes : (n x : ℕ) → length (be_bytes n x) ≡ n
unfolding be_bytes
length-be_bytes n x = omega (arith, length-reverse (le_bytes n x), length-le_bytes n x)

-- Every number is a byte.
abbrev pub IsBytes : Bytes → Type 0
IsBytes [] = Unit
IsBytes (b ∷ bs) = (b < 256) × IsBytes bs

IsBytes-append : (xs ys : Bytes) → IsBytes xs → IsBytes ys → IsBytes (xs ++ ys)
IsBytes-append [] ys hx hy = hy
IsBytes-append (x ∷ xs) ys hx hy = (hx.0, IsBytes-append xs ys hx.1 hy)

IsBytes-reverse : (xs : Bytes) → IsBytes xs → IsBytes (reverse xs)
IsBytes-reverse [] h = tt
IsBytes-reverse (x ∷ xs) h =
    rw (reverse-cons x xs) (IsBytes-append (reverse xs) (x ∷ []) (IsBytes-reverse xs h.1) (h.0, tt))

le_bytes-IsBytes : (n x : ℕ) → IsBytes (le_bytes n x)
unfolding le_bytes
le_bytes-IsBytes zero x = tt
le_bytes-IsBytes (suc n) x = (omega arith, le_bytes-IsBytes n (x / 256))

pub be_bytes-IsBytes : (n x : ℕ) → IsBytes (be_bytes n x)
unfolding be_bytes
be_bytes-IsBytes n x = IsBytes-reverse (le_bytes n x) (le_bytes-IsBytes n x)

pub IsBytes-take : (n : ℕ) (xs : Bytes) → IsBytes xs → IsBytes (take n xs)
unfolding take
IsBytes-take zero xs h = tt
IsBytes-take (suc n) [] h = tt
IsBytes-take (suc n) (x ∷ xs) h = (h.0, IsBytes-take n xs h.1)

of_le-lt : (bs : Bytes) → IsBytes bs → of_le bs < 256 ^ length bs
unfolding of_le
of_le-lt [] h = omega arith
of_le-lt (b ∷ bs) h = omega (arith, of_le-lt bs h.1, pow-suc 256 (length bs))

pub of_be-lt : (n : ℕ) (bs : Bytes) → length bs ≡ n → IsBytes bs → of_be bs < 256 ^ n
unfolding of_be
of_be-lt n bs e h =
    rw (← e) (rw (← length-reverse bs) (of_le-lt (reverse bs) (IsBytes-reverse bs h)))
