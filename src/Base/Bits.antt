-- ===== src/Base/Bits.antt =====
-- Laws of `&` with a low mask, and the range of `^` and `|` within a width.
use Prim.Native.Nat.{
  ℕ, zero, suc, ◌+◌, ◌-◌, ◌*◌, ◌/◌, ◌%◌, ◌^◌, ◌≤◌, ◌<◌, min, max, bit_and, bit_or, bit_xor, digits,
  bit_and-bitwise, bit_xor-bitwise, bit_or-bitwise, differ,
}
use mathlib.Core.Path.{◌≡◌, sym, ap, ◌∙◌}
use native.Mathlib.Nat.{
  two-pow-succ, one-le-pow, mul-add-mod_self_left, mod-eq_of_lt, div-add-mod, zero-mod, zero-div,
  zero-mul, mul_assoc, div-div-eq-div-mul,
}
use native.Mathlib.Omega.{arith}

-- A digit operation on numbers of `k` digits gives a number of `k` digits.
digits-lt :
    (z : ℕ → ℕ) (f : ℕ → ℕ → ℕ)
    → ((b : ℕ) → z b ≤ b)
    → ((x y : ℕ) → x < 2 → y < 2 → f x y < 2)
    → (n k a b : ℕ) → a < 2 ^ k
    → b < 2 ^ k
    → digits z f n a b < 2 ^ k
digits-lt z f small digit zero k a b p q = omega (arith, small b)
digits-lt z f small digit (suc n) k zero b p q = omega (arith, small b)
digits-lt z f small digit (suc n) zero (suc a) b p q = absurd (omega arith)
digits-lt z f small digit (suc n) (suc k) (suc a) b p q =
    let pow = two-pow-succ k in
    let high =
      digits-lt z f small digit n k (suc a / 2) (b / 2) (omega (arith, pow)) (omega (arith, pow)) in
    let low = digit (suc a % 2) (b % 2) (omega arith) (omega arith) in omega (arith, pow, high, low)

differ_digits : (x y : ℕ) → x < 2 → y < 2 → differ x y < 2
differ_digits zero y p q = q
differ_digits (suc zero) zero p q = omega arith
differ_digits (suc zero) (suc zero) p q = omega arith
differ_digits (suc zero) (suc (suc y)) p q = absurd (omega arith)
differ_digits (suc (suc x)) y p q = absurd (omega arith)

pub bit_xor-lt : (k a b : ℕ) → a < 2 ^ k → b < 2 ^ k → bit_xor a b < 2 ^ k
bit_xor-lt k a b p q =
    rw (bit_xor-bitwise a b)
      (digits-lt (λ b. b) differ (λ b. omega arith) differ_digits a k a b p q)

pub bit_or-lt : (k a b : ℕ) → a < 2 ^ k → b < 2 ^ k → bit_or a b < 2 ^ k
bit_or-lt k a b p q =
    rw (bit_or-bitwise a b)
      (digits-lt (λ b. b) max (λ b. omega arith) (λ x y u v. omega arith) a k a b p q)

mod_double : (p x : ℕ) → 0 < p → x % (p + p) ≡ x / 2 % p * 2 + x % 2
mod_double p x h =
    ap (λ (t : ℕ). t % (p + p)) (sym regroup)
    ∙ mul-add-mod_self_left (p + p) (x / 2 / p) (x / 2 % p * 2 + x % 2)
    ∙ mod-eq_of_lt (omega arith)
  where
    regroup : (p + p) * (x / 2 / p) + (x / 2 % p * 2 + x % 2) ≡ x
    regroup = omega (arith, div-add-mod (x / 2) p)

mask_digits : (n k a : ℕ) → a ≤ n → digits (λ b. zero) min n a (2 ^ k - 1) ≡ a % 2 ^ k
mask_digits zero k zero h = sym (zero-mod (2 ^ k))
mask_digits zero k (suc a) h = absurd (omega arith)
mask_digits (suc n) k zero h = sym (zero-mod (2 ^ k))
mask_digits (suc n) zero (suc a) h = omega (arith, mask_digits n zero (suc a / 2) (omega arith))
mask_digits (suc n) (suc k) (suc a) h =
    let pow = two-pow-succ k in
    let half : (2 ^ suc k - 1) / 2 ≡ 2 ^ k - 1 = omega (arith, pow, one-le-pow k 2) in
    let odd : (2 ^ suc k - 1) % 2 ≡ 1 = omega (arith, pow, one-le-pow k 2) in
    rw
      (
        half,
        odd,
        pow,
        mask_digits n k (suc a / 2) (omega arith),
        mod_double (2 ^ k) (suc a) (one-le-pow k 2 (omega arith)),
      )
      (omega arith)

-- A mask of the `k` lowest bits is the remainder by `2 ^ k`.
pub bit_and_mask : (k a : ℕ) → bit_and a (2 ^ k - 1) ≡ a % 2 ^ k
bit_and_mask k a = rw (bit_and-bitwise a (2 ^ k - 1)) (mask_digits a k a (omega arith))

pub zero-bit_xor : (b : ℕ) → bit_xor 0 b ≡ b
zero-bit_xor b = bit_xor-bitwise 0 b

bit_digits : (n k a : ℕ) → a ≤ n → digits (λ b. zero) min n a (2 ^ k) ≡ a / 2 ^ k % 2 * 2 ^ k
bit_digits zero k zero h = rw (zero-div (2 ^ k)) (sym (zero-mul (2 ^ k)))
bit_digits zero k (suc a) h = absurd (omega arith)
bit_digits (suc n) k zero h = rw (zero-div (2 ^ k)) (sym (zero-mul (2 ^ k)))
bit_digits (suc n) zero (suc a) h = omega (arith, mask_digits n zero (suc a / 2) (omega arith))
bit_digits (suc n) (suc k) (suc a) h =
    let pow = two-pow-succ k in
    let half : 2 ^ suc k / 2 ≡ 2 ^ k = omega (arith, pow) in
    let even : 2 ^ suc k % 2 ≡ 0 = omega (arith, pow) in
    let twice : 2 * 2 ^ k ≡ 2 ^ suc k = omega (arith, pow) in
    let pairs : 2 ^ k * 2 ≡ 2 ^ suc k = omega (arith, pow) in
    let above : suc a / 2 / 2 ^ k ≡ suc a / 2 ^ suc k =
      div-div-eq-div-mul (suc a) 2 (2 ^ k) ∙ ap (λ (t : ℕ). suc a / t) twice in
    rw (half, even, bit_digits n k (suc a / 2) (omega arith), above)
      (omega (
        arith,
        mul_assoc (suc a / 2 ^ suc k % 2) (2 ^ k) 2,
        ap (λ (t : ℕ). suc a / 2 ^ suc k % 2 * t) pairs,
      ))

-- A mask of one bit leaves that bit.
pub bit_and_bit : (k a : ℕ) → bit_and a (2 ^ k) ≡ a / 2 ^ k % 2 * 2 ^ k
bit_and_bit k a = rw (bit_and-bitwise a (2 ^ k)) (bit_digits a k a (omega arith))
