-- ===== src/Bytes/Laws.antt =====
-- Reading back what was appended, and where a cut stays inside a slice.
use opendata_go.Base.{
  ◌∙◌, ok-ne-panic, panic, ◌≢◌, sym, take-append-drop, drop-drop, length-drop, ◌%◌, All-drop,
  >>=-eq-ok, All-take, [], ◌*◌, length-take, ◌∷◌, ℕ, zero, suc, ◌+◌, ◌-◌, ◌/◌, ◌^◌, ◌≤◌, ◌<◌, ◌≡◌,
  refl, ap, ◌++◌, arith, length, take, drop, All, length-append, take-append, drop-append, ok,
}
use opendata_go.Bytes.{
  Bytes, IsByte, le_bytes, from_le, slice, read_le, ℤ, pos, negsuc, u64_of_int, int_of_u64, IsInt64,
}
use native.Mathlib.Nat.{pow-suc}

pub length-le_bytes : (k x : ℕ) → length (le_bytes k x) ≡ k
unfolding le_bytes
length-le_bytes zero x = refl
length-le_bytes (suc k) x = ap suc (length-le_bytes k (x / 256))

pub le_bytes-IsByte : (k x : ℕ) → All IsByte (le_bytes k x)
unfolding le_bytes
le_bytes-IsByte zero x = tt
le_bytes-IsByte (suc k) x = (omega arith, le_bytes-IsByte k (x / 256))

pub from_le-le_bytes : (k x : ℕ) → x < 256 ^ k → from_le (le_bytes k x) ≡ x
unfolding le_bytes from_le
from_le-le_bytes zero x h = omega arith
from_le-le_bytes (suc k) x h =
    omega (arith, from_le-le_bytes k (x / 256) (omega (arith, pow-suc 256 k)))

pub int_of_u64-u64_of_int : (i : ℤ) → IsInt64 i → int_of_u64 (u64_of_int i) ≡ i
unfolding int_of_u64 u64_of_int
int_of_u64-u64_of_int (pos n) h = ground arith
int_of_u64-u64_of_int (negsuc n) h = ground arith

pub u64_of_int-lt : (i : ℤ) → u64_of_int i < 2 ^ 64
unfolding u64_of_int
u64_of_int-lt (pos n) = omega arith
u64_of_int-lt (negsuc n) = omega arith

-- A cut that names the middle of three parts yields it.
pub slice-append :
    (pre mid post : Bytes) (lo hi : ℕ)
    → length pre ≡ lo
    → lo + length mid ≡ hi
    → slice (pre ++ (mid ++ post)) lo hi ≡ ok mid
unfolding slice
slice-append pre mid post lo hi hl hh =
    rw (drop-append lo pre (mid ++ post) hl, take-append (hi - lo) mid post (omega arith))
      (ground (arith, length-append pre (mid ++ post), length-append mid post))

pub read_le-append :
    (k x : ℕ) (pre post : Bytes) (lo : ℕ)
    → length pre ≡ lo
    → x < 256 ^ k
    → read_le k (pre ++ (le_bytes k x ++ post)) lo ≡ ok x
unfolding read_le
read_le-append k x pre post lo hl hx =
    rw (slice-append pre (le_bytes k x) post lo (lo + k) hl (omega (arith, length-le_bytes k x)))
      (ap ok (from_le-le_bytes k x hx))

-- A cut inside the slice does not panic.
pub slice_inside :
    (xs : Bytes) (lo hi : ℕ)
    → lo ≤ hi
    → hi ≤ length xs
    → slice xs lo hi ≡ ok (take (hi - lo) (drop lo xs))
unfolding slice
slice_inside xs lo hi h k = ground arith

pub le_bytes-from_le :
    (k : ℕ) (bs : Bytes) → length bs ≡ k → All IsByte bs → le_bytes k (from_le bs) ≡ bs
unfolding le_bytes from_le
le_bytes-from_le zero [] l h = refl
le_bytes-from_le zero (b ∷ bs) l h = absurd (omega arith)
le_bytes-from_le (suc k) [] l h = absurd (omega arith)
le_bytes-from_le (suc k) (b ∷ bs) l h =
    let low : (b + 256 * from_le bs) % 256 ≡ b = omega (arith, h.0) in
    let high : (b + 256 * from_le bs) / 256 ≡ from_le bs = omega (arith, h.0) in
    rw (low, high, le_bytes-from_le k bs (omega arith) h.1)

pub from_le-lt : (bs : Bytes) → All IsByte bs → from_le bs < 256 ^ length bs
unfolding from_le
from_le-lt [] h = omega arith
from_le-lt (b ∷ bs) h = omega (arith, h.0, from_le-lt bs h.1, pow-suc 256 (length bs))

slice_cut :
    (xs : Bytes) (lo hi : ℕ) {ys : Bytes}
    → slice xs lo hi ≡ ok ys
    → (lo ≤ hi) × (hi ≤ length xs) × (take (hi - lo) (drop lo xs) ≡ ys)
unfolding slice
slice_cut xs lo hi e = ground arith

-- A cut that succeeds lies inside, and is the front of what follows its start.
pub slice_parts :
    (xs : Bytes) (lo hi : ℕ) {ys : Bytes}
    → slice xs lo hi ≡ ok ys
    → (lo ≤ hi) × (hi ≤ length xs) × (length ys ≡ hi - lo) × (drop lo xs ≡ ys ++ drop hi xs)
slice_parts xs lo hi {ys} e =
    let (low, high, cut) = slice_cut xs lo hi e in
    let after : lo + (hi - lo) ≡ hi = omega arith in
    let size : length ys ≡ hi - lo =
      rw (← cut) (omega (arith, length-take (hi - lo) (drop lo xs), length-drop lo xs)) in
    let parts : take (hi - lo) (drop lo xs) ++ drop hi xs ≡ drop lo xs =
      rw (drop-drop (hi - lo) lo xs, after) at (take-append-drop (hi - lo) (drop lo xs)) in
    (low, high, size, rw (← cut) (sym parts))

pub slice-IsByte :
    (xs : Bytes) (lo hi : ℕ) {ys : Bytes} → All IsByte xs → slice xs lo hi ≡ ok ys → All IsByte ys
slice-IsByte xs lo hi h e =
    let (_, _, cut) = slice_cut xs lo hi e in
    rw cut at (All-take IsByte (hi - lo) (drop lo xs) (All-drop IsByte lo xs h))

-- A read that succeeds found the number's bytes at its offset.
pub read_le_parts :
    (k : ℕ) (xs : Bytes) (lo : ℕ) {x : ℕ}
    → All IsByte xs
    → read_le k xs lo ≡ ok x
    → (x < 256 ^ k) × (lo + k ≤ length xs) × (drop lo xs ≡ le_bytes k x ++ drop (lo + k) xs)
unfolding read_le
read_le_parts k xs lo {x} h e =
    let (bs, cut, value) = >>=-eq-ok (slice xs lo (lo + k)) _ e in
    let (_, fits, size, parts) = slice_parts xs lo (lo + k) cut in
    let bytes = slice-IsByte xs lo (lo + k) h cut in
    let value' : from_le bs ≡ x = cc value in
    let size' : length bs ≡ k = omega arith in
    let bound : from_le bs < 256 ^ k = rw size' at (from_le-lt bs bytes) in
    (rw value' at bound, fits, rw (← value', le_bytes-from_le k bs size' bytes) parts)

pub read_le_inside :
    (k : ℕ) (xs : Bytes) (lo : ℕ) → lo + k ≤ length xs → (x : ℕ) × (read_le k xs lo ≡ ok x)
unfolding read_le
read_le_inside k xs lo h =
    (from_le (take (lo + k - lo) (drop lo xs)), rw (slice_inside xs lo (lo + k) (omega arith) h))

pub slice-ne-panic : (xs : Bytes) (lo hi : ℕ) → lo ≤ hi → hi ≤ length xs → slice xs lo hi ≢ panic
slice-ne-panic xs lo hi h k = rw (slice_inside xs lo hi h k) (ok-ne-panic _)

pub read_le-ne-panic : (k : ℕ) (xs : Bytes) (lo : ℕ) → lo + k ≤ length xs → read_le k xs lo ≢ panic
read_le-ne-panic k xs lo h = rw ((read_le_inside k xs lo h).1) (ok-ne-panic _)

pub drop_all : (n : ℕ) (xs : Bytes) → length xs ≤ n → drop n xs ≡ []
drop_all zero [] h = refl
drop_all zero (x ∷ xs) h = absurd (omega arith)
drop_all (suc n) [] h = refl
drop_all (suc n) (x ∷ xs) h = drop_all n xs (omega arith)

pub one_byte : (b : ℕ) → b < 256 → le_bytes 1 b ≡ b ∷ []
unfolding le_bytes
one_byte b h = ground arith

-- Where a slice goes on with `mid`, the cut yields `mid`, and the rest follows.
pub cut_at :
    (xs mid rest : Bytes) (lo hi : ℕ)
    → drop lo xs ≡ mid ++ rest
    → lo + length mid ≡ hi
    → hi ≤ length xs
    → (slice xs lo hi ≡ ok mid) × (drop hi xs ≡ rest)
cut_at xs mid rest lo hi e size fits =
    let wide : hi - lo ≡ length mid = omega arith in
    (
      slice_inside xs lo hi (omega arith) fits
          ∙ rw (wide, e, take-append (length mid) mid rest refl) refl,
      rw (← size, ← drop-drop (length mid) lo xs, e, drop-append (length mid) mid rest refl) refl,
    )

-- Where a slice goes on with a number of `k` bytes, the read yields it.
pub read_at :
    (k x : ℕ) (xs rest : Bytes) (lo hi : ℕ)
    → drop lo xs ≡ le_bytes k x ++ rest
    → x < 256 ^ k
    → lo + k ≡ hi
    → hi ≤ length xs
    → (read_le k xs lo ≡ ok x) × (drop hi xs ≡ rest)
unfolding read_le
read_at k x xs rest lo hi e small size fits =
    let (cut, after) =
      cut_at xs (le_bytes k x) rest lo hi e (omega (arith, length-le_bytes k x)) fits in
    (rw (size, cut) (ap ok (from_le-le_bytes k x small)), after)
