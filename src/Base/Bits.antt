-- ===== src/Base/Bits.antt =====
-- `&` and `|` on numbers of any width: a sum of disjoint fields, and the prefix that a network mask keeps.
use Prim.Native.Nat.{
  ℕ, zero, suc, ◌+◌, ◌-◌, ◌*◌, ◌/◌, ◌%◌, ◌^◌, ◌≤◌, ◌<◌, min, max, digits, bitwise, bit_and, bit_or,
  bit_and-bitwise, bit_or-bitwise,
}
use mathlib.Core.Path.{◌≡◌, refl, ap}
use native.Mathlib.Nat.{pow-suc, one-le-pow, le_refl, div-lt_iff_lt-mul}
use native.Mathlib.Omega.{arith}

-- The fuel of the recursion on digits does not matter once it is enough.
module _ (alone : ℕ → ℕ) (both : ℕ → ℕ → ℕ) where
  digits_enough : (m n x y : ℕ) → x ≤ m → x ≤ n → digits alone both m x y ≡ digits alone both n x y
  digits_enough zero zero x y h k = refl
  digits_enough zero (suc n) zero y h k = refl
  digits_enough (suc m) zero zero y h k = refl
  digits_enough (suc m) (suc n) zero y h k = refl
  digits_enough zero (suc n) (suc x) y h k = absurd (omega arith)
  digits_enough (suc m) zero (suc x) y h k = absurd (omega arith)
  digits_enough (suc m) (suc n) (suc x) y h k =
      rw (digits_enough m n (suc x / 2) (y / 2) (omega arith) (omega arith))

  bitwise_halves :
      (x y : ℕ)
      → bitwise alone both (suc x) y
        ≡ bitwise alone both (suc x / 2) (y / 2) * 2 + both (suc x % 2) (y % 2)
  bitwise_halves x y =
      omega (arith, digits_enough x (suc x / 2) (suc x / 2) (y / 2) (omega arith) (le_refl _))

bit_or_halves : (x y : ℕ) → bit_or x y ≡ bit_or (x / 2) (y / 2) * 2 + max (x % 2) (y % 2)
bit_or_halves zero y = simp bit_or-bitwise (omega arith)
bit_or_halves (suc x) y = simp bit_or-bitwise (bitwise_halves (λ b. b) max x y)

bit_and_halves : (x y : ℕ) → bit_and x y ≡ bit_and (x / 2) (y / 2) * 2 + min (x % 2) (y % 2)
bit_and_halves zero y = simp bit_and-bitwise (omega arith)
bit_and_halves (suc x) y = simp bit_and-bitwise (bitwise_halves (λ b. 0) min x y)

bit_or-zero_within : (n x : ℕ) → x ≤ n → bit_or x 0 ≡ x
bit_or-zero_within n zero h = refl
bit_or-zero_within zero (suc x) h = absurd (omega arith)
bit_or-zero_within (suc n) (suc x) h =
    omega (arith, bit_or_halves (suc x) 0, bit_or-zero_within n (suc x / 2) (omega arith))

bit_and-zero_within : (n x : ℕ) → x ≤ n → bit_and x 0 ≡ 0
bit_and-zero_within n zero h = refl
bit_and-zero_within zero (suc x) h = absurd (omega arith)
bit_and-zero_within (suc n) (suc x) h =
    omega (arith, bit_and_halves (suc x) 0, bit_and-zero_within n (suc x / 2) (omega arith))

pub bit_and-zero : (x : ℕ) → bit_and x 0 ≡ 0
bit_and-zero x = bit_and-zero_within x x (le_refl _)

scaled : (q k : ℕ) → q * 2 ^ suc k ≡ 2 * (q * 2 ^ k)
scaled q k = omega (arith, ap (λ (power : ℕ). q * power) (pow-suc 2 k))

pub pow-add : (m n : ℕ) → 2 ^ (m + n) ≡ 2 ^ m * 2 ^ n
pow-add m zero = ground arith
pow-add m (suc n) = grind (arith, pow-suc 2 (m + n), pow-add m n, scaled (2 ^ m) n)

-- `(q << k) | r` where r has at most k bits.
pub bit_or-shifted : (k q r : ℕ) → r < 2 ^ k → bit_or (q * 2 ^ k) r ≡ q * 2 ^ k + r
bit_or-shifted zero q r h = ground (arith, bit_or-zero_within (q * 1) (q * 1) (le_refl _))
bit_or-shifted (suc k) q r h = ground (
  arith,
  bit_or_halves (q * 2 ^ suc k) r,
  scaled q k,
  pow-suc 2 k,
  bit_or-shifted k q (r / 2) (omega (arith, pow-suc 2 k)),
)

-- `&` with p ones.
bit_and-ones : (p q : ℕ) → q < 2 ^ p → bit_and q (2 ^ p - 1) ≡ q
bit_and-ones zero q h = ground (arith, bit_and-zero q)
bit_and-ones (suc p) q h = ground (
  arith,
  bit_and_halves q (2 ^ suc p - 1),
  pow-suc 2 p,
  one-le-pow p 2,
  bit_and-ones p (q / 2) (omega (arith, pow-suc 2 p)),
)

-- `&` with p ones before k zeros keeps the p bits and clears the k bits.
pub bit_and-network :
    (k p q r : ℕ)
    → q < 2 ^ p
    → r < 2 ^ k
    → bit_and (q * 2 ^ k + r) ((2 ^ p - 1) * 2 ^ k) ≡ q * 2 ^ k
bit_and-network zero p q r h f = ground (arith, bit_and-ones p q h)
bit_and-network (suc k) p q r h f = ground (
  arith,
  bit_and_halves (q * 2 ^ suc k + r) ((2 ^ p - 1) * 2 ^ suc k),
  scaled q k,
  scaled (2 ^ p - 1) k,
  pow-suc 2 k,
  bit_and-network k p q (r / 2) h (omega (arith, pow-suc 2 k)),
)

quotient-lt : (k p v : ℕ) → v < 2 ^ (p + k) → v / 2 ^ k < 2 ^ p
quotient-lt k p v h =
    (div-lt_iff_lt-mul {k = 2 ^ k} {x = v} {y = 2 ^ p} (one-le-pow k 2 (omega arith))).1
      (rw (← pow-add p k) h)

-- The same for any number of k + p bits.
pub bit_and-prefix :
    (k p v : ℕ) → v < 2 ^ (p + k) → bit_and v ((2 ^ p - 1) * 2 ^ k) ≡ v / 2 ^ k * 2 ^ k
bit_and-prefix k p v h =
    ground
      (arith, one-le-pow k 2, bit_and-network k p (v / 2 ^ k) (v % 2 ^ k) (quotient-lt k p v h))
