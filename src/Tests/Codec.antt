-- ===== src/Tests/Codec.antt =====
-- A text codec for the examples: each character takes three bytes.
use Prim.Native.Char.{Char, char, code, IsScalar}
use Prim.Native.Nat.{Ordering, compare, lt, eq, gt}
use native.Mathlib.Omega.{compare-lt, compare-eq}
use text.Mathlib.TextEquality.{Char-path}
use botster_web.Common.{
  ℕ, ◌+◌, ◌*◌, ◌/◌, ◌%◌, ◌<◌, ◌≡◌, refl, String, Option, none, some, [], ◌∷◌, arith, true, ap,
  is_some,
}
use botster_web.Wire.Bytes.{Bytes, AreBytes}
use botster_web.Wire.Event.{TextCodec, HasNoBom}

-- Whether `n` is a character's number, from how it compares with the bounds.
scalar_of :
    (n : ℕ) (o p q : Ordering)
    → compare n 55296 ≡ o
    → compare 57343 n ≡ p
    → compare n 1114112 ≡ q
    → Option (IsScalar n)
scalar_of n lt p q e f g = some (rw e tt)
scalar_of n gt lt lt e f g = some (rw (e, f, g) tt)
scalar_of n o p q e f g = none

IsScalar-bounds :
    (n : ℕ) (o p q : Ordering) (e : compare n 55296 ≡ o) (f : compare 57343 n ≡ p)
    (g : compare n 1114112 ≡ q)
    → IsScalar n
    → (is_some (scalar_of n o p q e f g) ≡ true) × (n < 16777216)
unfolding scalar_of
IsScalar-bounds n lt p q e f g s = (refl, omega (arith, compare-lt n 55296 e))
IsScalar-bounds n gt lt lt e f g s = (refl, omega (arith, compare-lt n 1114112 g))
IsScalar-bounds n eq lt lt e f g s =
    absurd (omega (arith, compare-eq n 55296 e, compare-lt 57343 n f))
IsScalar-bounds n o lt q e f g s = absurd (rw (e, f, g) at s)
IsScalar-bounds n o p q e f g s = absurd (rw (e, f) at s)

char_of : ℕ → Option Char
char_of n = elim (scalar_of n _ _ _ refl refl refl) [ none ↦ none | some s ↦ some (char n s) ]

char_of-code : (c : Char) → char_of (code c) ≡ some c
unfolding char_of
char_of-code (char n s) =
    go (scalar_of n _ _ _ refl refl refl) (IsScalar-bounds n _ _ _ refl refl refl s).0
  where
    go :
        (o : Option (IsScalar n))
        → is_some o ≡ true
        → (elim o as (λ x. Option Char) [ none ↦ none | some t ↦ some (char n t) ])
          ≡ some (char n s)
    go none h = absurd (ground (arith, h))
    go (some t) h = ap some (Char-path (char n t) (char n s) refl)

unfoldable pub encode_wide : String → Bytes
encode_wide String.[] = []
encode_wide (String.◌∷◌ c s) = code c / 65536 ∷ code c / 256 % 256 ∷ code c % 256 ∷ encode_wide s

prepend : Option Char → Option String → Option String
prepend none s = none
prepend (some c) none = none
prepend (some c) (some s) = some (String.◌∷◌ c s)

pub decode_wide : Bytes → Option String
decode_wide [] = some String.[]
decode_wide (a ∷ []) = none
decode_wide (a ∷ b ∷ []) = none
decode_wide (a ∷ b ∷ c ∷ rest) = prepend (char_of (a * 65536 + b * 256 + c)) (decode_wide rest)

pub encode_wide-AreBytes : (t : String) → AreBytes (encode_wide t)
unfolding encode_wide
encode_wide-AreBytes String.[] = tt
encode_wide-AreBytes (String.◌∷◌ (char n s) t) =
    let below = (IsScalar-bounds n _ _ _ refl refl refl s).1 in
    (omega (arith, below), (omega arith, (omega arith, encode_wide-AreBytes t)))

pub decode_wide-encode_wide : (t : String) → HasNoBom t → decode_wide (encode_wide t) ≡ some t
unfolding encode_wide decode_wide prepend
decode_wide-encode_wide t h = reads t
  where
    reads : (t : String) → decode_wide (encode_wide t) ≡ some t
    reads String.[] = refl
    reads (String.◌∷◌ c t) =
        let whole : code c / 65536 * 65536 + code c / 256 % 256 * 256 + code c % 256 ≡ code c =
          omega arith in
        rw (whole, char_of-code c, reads t) refl

abbrev pub wide_codec : TextCodec
wide_codec = record {
  encode = encode_wide;
  decode = decode_wide;
  encode-AreBytes = encode_wide-AreBytes;
  decode-encode = decode_wide-encode_wide;
}
