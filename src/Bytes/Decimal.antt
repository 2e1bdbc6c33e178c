-- ===== src/Bytes/Decimal.antt =====
-- `fmt.Sprintf("%d", n)` of a number that is not negative, and equality of Go strings.
use opendata_go.Base.{
  ◌&&◌, ◌%◌, ap, ltb, ◌==◌, ◌*◌, refl, ◌∙◌, false, zero, ◌↔◌, if◌then◌else◌, ◌+◌, ◌-◌, arith, sym,
  ◌/◌, true, [], ◌<◌, Bool, ◌≡◌, suc, ℕ,
}
use opendata_go.Bytes.{Bytes}
use mathlib.Core.List.{[], ◌∷◌, reverse, reverse-reverse}

-- The digits, last one first. With more fuel than `n` none is cut off.
digits : ℕ → ℕ → Bytes
digits zero n = []
digits (suc fuel) n =
    let rest = digits fuel (n / 10) in if ltb n 10 then (b'0' + n) ∷ [] else (b'0' + n % 10) ∷ rest

unfoldable pub decimal : ℕ → Bytes
unfolding digits
decimal n = reverse (digits (suc n) n)

value : Bytes → ℕ
value [] = 0
value (d ∷ ds) = (d - b'0') + 10 * value ds

value-digits : (fuel n : ℕ) → n < fuel → value (digits fuel n) ≡ n
unfolding value digits
value-digits zero n h = absurd (omega arith)
value-digits (suc fuel) n h = ground (arith, value-digits fuel (n / 10))

-- Different numbers print differently.
pub decimal-injective : (m n : ℕ) → decimal m ≡ decimal n → m ≡ n
unfolding decimal
decimal-injective m n h =
    sym (value-digits (suc m) m (omega arith))
    ∙ ap value (
        sym (reverse-reverse (digits (suc m) m))
        ∙ ap reverse h
        ∙ reverse-reverse (digits (suc n) n))
    ∙ value-digits (suc n) n (omega arith)

-- `==` on strings.
unfoldable pub same : Bytes → Bytes → Bool
same [] [] = true
same [] (y ∷ ys) = false
same (x ∷ xs) [] = false
same (x ∷ xs) (y ∷ ys) = (x == y) && same xs ys

pub same_iff : (xs ys : Bytes) → (same xs ys ≡ true) ↔ (xs ≡ ys)
unfolding same
same_iff [] [] = (λ _. refl, λ _. refl)
same_iff [] (y ∷ ys) = (λ h. cc, λ h. cc)
same_iff (x ∷ xs) [] = (λ h. cc, λ h. cc)
same_iff (x ∷ xs) (y ∷ ys) = ground (arith, same_iff xs ys)

pub same_refl : (xs : Bytes) → same xs xs ≡ true
same_refl xs = (same_iff xs xs).1 refl
