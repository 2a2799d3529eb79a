-- ===== src/Wire/Bytes.antt =====
-- `DataView` reads and writes at fixed widths, over byte lists. A write takes its value modulo the
-- width, as `setUint16` and its like do.
use botster_web.Common.{
  ℕ, zero, suc, ◌+◌, ◌-◌, ◌*◌, ◌/◌, ◌%◌, ◌^◌, ◌<◌, ◌≡◌, refl, List, [], ◌∷◌, arith, All, length,
  take, drop, ltb, if◌then◌else◌,
}
use botster_web.Common.Int.{ℤ, pos, negsuc}

abbrev pub Bytes : Type 0
Bytes = List ℕ

abbrev pub IsByte : ℕ → Type 0
IsByte b = b < 256

abbrev pub AreBytes : Bytes → Type 0
AreBytes = All IsByte

-- setUintN(offset, n, true): least significant byte first.
abbrev pub le_bytes : ℕ → ℕ → Bytes
le_bytes zero n = []
le_bytes (suc k) n = n % 256 ∷ le_bytes k (n / 256)

-- setUintN(offset, n, false): most significant byte first.
abbrev pub be_bytes : ℕ → ℕ → Bytes
be_bytes zero n = []
be_bytes (suc k) n = n / 256 ^ k % 256 ∷ be_bytes k n

abbrev pub le_value : Bytes → ℕ
le_value [] = 0
le_value (b ∷ bs) = b + 256 * le_value bs

abbrev pub be_value_from : ℕ → Bytes → ℕ
be_value_from acc [] = acc
be_value_from acc (b ∷ bs) = be_value_from (acc * 256 + b) bs

-- getUintN(offset, true) of `k` bytes
abbrev pub get_le : ℕ → ℕ → Bytes → ℕ
get_le k offset bytes = le_value (take k (drop offset bytes))

-- getUintN(offset, false) of `k` bytes
abbrev pub get_be : ℕ → ℕ → Bytes → ℕ
get_be k offset bytes = be_value_from 0 (take k (drop offset bytes))

-- bytes[offset]; a read past the end, which the callers rule out first, gives 0 here
abbrev pub byte_at : ℕ → Bytes → ℕ
byte_at offset bytes = get_le 1 offset bytes

-- setInt32 and getInt32: two's complement.
unfoldable pub int32_bits : ℤ → ℕ
int32_bits (pos n) = n % 2 ^ 32
int32_bits (negsuc n) = 2 ^ 32 - 1 - n % 2 ^ 32

unfoldable pub int32_value : ℕ → ℤ
int32_value w = if ltb w (2 ^ 31) then pos w else negsuc (2 ^ 32 - 1 - w)

abbrev pub IsInt32 : ℤ → Type 0
IsInt32 (pos n) = n < 2 ^ 31
IsInt32 (negsuc n) = n < 2 ^ 31

pub int32_value-int32_bits : (z : ℤ) → IsInt32 z → int32_value (int32_bits z) ≡ z
unfolding int32_value int32_bits
int32_value-int32_bits (pos n) h = ground arith
int32_value-int32_bits (negsuc n) h = ground arith

pub int32_bits-lt : (z : ℤ) → int32_bits z < 2 ^ 32
unfolding int32_bits
int32_bits-lt (pos n) = omega arith
int32_bits-lt (negsuc n) = omega arith

pub le_value-2 : (n : ℕ) → n < 2 ^ 16 → le_value (le_bytes 2 n) ≡ n
le_value-2 n h = omega arith

pub le_value-4 : (n : ℕ) → n < 2 ^ 32 → le_value (le_bytes 4 n) ≡ n
le_value-4 n h = omega arith

pub le_value-8 : (n : ℕ) → n < 2 ^ 64 → le_value (le_bytes 8 n) ≡ n
le_value-8 n h = omega arith

pub be_value-2 : (n : ℕ) → n < 2 ^ 16 → be_value_from 0 (be_bytes 2 n) ≡ n
be_value-2 n h = omega arith

pub be_value-4 : (n : ℕ) → n < 2 ^ 32 → be_value_from 0 (be_bytes 4 n) ≡ n
be_value-4 n h = omega arith

pub be_value-8 : (n : ℕ) → n < 2 ^ 64 → be_value_from 0 (be_bytes 8 n) ≡ n
be_value-8 n h = omega arith

pub le_bytes-AreBytes : (k n : ℕ) → AreBytes (le_bytes k n)
le_bytes-AreBytes zero n = tt
le_bytes-AreBytes (suc k) n = (omega arith, le_bytes-AreBytes k (n / 256))

pub be_bytes-AreBytes : (k n : ℕ) → AreBytes (be_bytes k n)
be_bytes-AreBytes zero n = tt
be_bytes-AreBytes (suc k) n = (omega arith, be_bytes-AreBytes k n)

pub length-le_bytes : (k n : ℕ) → length (le_bytes k n) ≡ k
length-le_bytes zero n = refl
length-le_bytes (suc k) n = omega (arith, length-le_bytes k (n / 256))

pub length-be_bytes : (k n : ℕ) → length (be_bytes k n) ≡ k
length-be_bytes zero n = refl
length-be_bytes (suc k) n = omega (arith, length-be_bytes k n)
