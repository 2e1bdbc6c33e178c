-- ===== src/Bytes.antt =====
-- Byte slices as the encoders and decoders of buffer/batch.go and buffer/manifest.go use them:
-- `binary.LittleEndian`, conversions between integer types, and slicing with its bounds check.
pub mod Laws
pub mod Decimal
use opendata_go.Base.{
  ℕ, zero, suc, ◌+◌, ◌-◌, ◌*◌, ◌/◌, ◌%◌, ◌^◌, ◌<◌, ◌&&◌, List, [], ◌∷◌, leb, ltb, if◌then◌else◌,
  length, take, drop, Outcome, ok, panic, ◌>>=◌,
}

abbrev pub Bytes : Type 0
Bytes = List ℕ

abbrev pub IsByte : ℕ → Type 0
IsByte b = b < 256

-- The conversions `uint16(x)`, `uint32(x)`, `uint64(x)` of a number that is not negative.
abbrev pub u16 : ℕ → ℕ
u16 x = x % 2 ^ 16

abbrev pub u32 : ℕ → ℕ
u32 x = x % 2 ^ 32

abbrev pub u64 : ℕ → ℕ
u64 x = x % 2 ^ 64

-- What `AppendUint16` (two bytes), `AppendUint32` and `AppendUint64` append, lowest byte first.
unfoldable pub le_bytes : ℕ → ℕ → Bytes
le_bytes zero x = []
le_bytes (suc k) x = (x % 256) ∷ le_bytes k (x / 256)

unfoldable pub from_le : Bytes → ℕ
from_le [] = 0
from_le (b ∷ bs) = b + 256 * from_le bs

-- `data[lo:hi]` panics unless `lo <= hi <= len(data)`. (The capacity of every slice that is cut
-- here is its length, or the cut lies inside the length.)
unfoldable pub slice : Bytes → ℕ → ℕ → Outcome Bytes
slice data' lo hi =
    if leb lo hi && leb hi (length data') then ok (take (hi - lo) (drop lo data')) else panic

-- `LittleEndian.Uint32(data[lo:lo+4])`, and the same at the other widths.
unfoldable pub read_le : ℕ → Bytes → ℕ → Outcome ℕ
unfolding slice from_le
read_le k data' lo = do bs ← slice data' lo (lo + k); ok (from_le bs)

-- int64 as a number with its sign; `negsuc n` is -(n + 1).
pub data ℤ : Type 0 where
  pos : ℕ → ℤ
  negsuc : ℕ → ℤ

-- `uint64(i)` and `int64(u)`: two's complement.
unfoldable pub u64_of_int : ℤ → ℕ
u64_of_int (pos n) = n % 2 ^ 64
u64_of_int (negsuc n) = 2 ^ 64 - 1 - n % 2 ^ 64

unfoldable pub int_of_u64 : ℕ → ℤ
int_of_u64 u = if ltb u (2 ^ 63) then pos u else negsuc (2 ^ 64 - 1 - u)

-- The values of int64.
abbrev pub IsInt64 : ℤ → Type 0
IsInt64 (pos n) = n < 2 ^ 63
IsInt64 (negsuc n) = n < 2 ^ 63
