-- ===== src/Hash/Decimal.antt =====
-- `sprintf(key, "%lld", addr)`: the characters that it writes, as codes, without the closing NUL.
use node2x6x2b.Base.{
  ℕ, zero, suc, ◌+◌, ◌-◌, ◌*◌, ◌/◌, ◌%◌, ◌^◌, ◌≤◌, ◌<◌, ◌≡◌, refl, ◌∙◌, ap, List, [], ◌∷◌, arith,
  ltb, ◌==◌, if◌then◌else◌, length, Bool-cases, ltb→lt, inl, inr,
}
use native.Mathlib.Nat.{pow-suc}

-- The digits of `n` before those of `below`; a 64-bit number has 20 digits at most.
unfoldable pub decimal : ℕ → ℕ → List ℕ → List ℕ
decimal zero n below = below
decimal (suc fuel) n below =
    let rest = decimal fuel (n / 10) ((b'0' + n % 10) ∷ below) in
    if ltb n 10 then (b'0' + n) ∷ below else rest

unfoldable pub sprintf_lld : ℕ → List ℕ
sprintf_lld addr =
    if ltb addr (2 ^ 63) then decimal 20 addr [] else b'-' ∷ decimal 20 (2 ^ 64 - addr) []

-- The number that decimal digits stand for, behind the digits of `acc`.
value_of : ℕ → List ℕ → ℕ
value_of acc [] = acc
value_of acc (c ∷ cs) = value_of (acc * 10 + (c - b'0')) cs

-- The 64-bit pattern that a printed `long long` stands for.
read_lld : List ℕ → ℕ
read_lld [] = 0
read_lld (c ∷ cs) = if c == b'-' then 2 ^ 64 - value_of 0 cs else value_of 0 (c ∷ cs)

value_of-decimal :
    (fuel n : ℕ) (below : List ℕ)
    → n < 10 ^ suc fuel
    → value_of 0 (decimal (suc fuel) n below) ≡ value_of n below
unfolding value_of decimal
value_of-decimal zero n below h = ground arith
value_of-decimal (suc fuel) n below h = elim (Bool-cases (ltb n 10)) [
  | inl last ↦ rw last (ap (λ (t : ℕ). value_of t below) (omega arith))
  | inr more ↦ rw more (
      value_of-decimal fuel (n / 10) ((b'0' + n % 10) ∷ below)
        (omega (arith, pow-suc 10 (suc fuel)))
      ∙ ap (λ (t : ℕ). value_of t below) (omega arith))
]

pub starts_with_digit :
    (fuel n : ℕ) (below : List ℕ)
    → (c : ℕ) × (cs : List ℕ) × (decimal (suc fuel) n below ≡ c ∷ cs) × (b'0' ≤ c)
unfolding decimal
starts_with_digit zero n below = elim (Bool-cases (ltb n 10)) [
  | inl last ↦ (b'0' + n, below, rw last, omega arith)
  | inr more ↦ (b'0' + n % 10, below, rw more, omega arith)
]
starts_with_digit (suc fuel) n below = elim (Bool-cases (ltb n 10)) [
  | inl last ↦ (b'0' + n, below, rw last, omega arith)
  | inr more ↦ rw more (starts_with_digit fuel (n / 10) ((b'0' + n % 10) ∷ below))
]

length-decimal : (fuel n : ℕ) (below : List ℕ) → length (decimal fuel n below) ≤ fuel + length below
unfolding decimal
length-decimal zero n below = omega arith
length-decimal (suc fuel) n below =
    ground (arith, length-decimal fuel (n / 10) ((b'0' + n % 10) ∷ below))

-- The text takes at most 21 characters, so with its NUL it fits the 256 of `key`.
pub length-sprintf_lld : (addr : ℕ) → length (sprintf_lld addr) ≤ 21
unfolding sprintf_lld
length-sprintf_lld addr =
    ground (arith, length-decimal 20 addr [], length-decimal 20 (2 ^ 64 - addr) [])

read_lld-decimal : (n : ℕ) → n < 10 ^ 20 → read_lld (decimal 20 n []) ≡ n
unfolding read_lld
read_lld-decimal n h =
    let (c, cs, starts, digit) = starts_with_digit 19 n [] in
    let number : value_of 0 (c ∷ cs) ≡ n =
      rw (← starts) (value_of-decimal 19 n [] h ∙ unfold value_of in refl) in
    rw starts (ground (arith, number))

-- Reading the printed text back gives the address, so distinct addresses have distinct keys.
read_lld-sprintf_lld : (addr : ℕ) → addr < 2 ^ 64 → read_lld (sprintf_lld addr) ≡ addr
unfolding sprintf_lld
read_lld-sprintf_lld addr h = elim (Bool-cases (ltb addr (2 ^ 63))) [
  | inl positive ↦ rw positive (read_lld-decimal addr (omega arith))
  | inr negative ↦
      let digits : value_of 0 (decimal 20 (2 ^ 64 - addr) []) ≡ 2 ^ 64 - addr =
        value_of-decimal 19 (2 ^ 64 - addr) [] (omega arith) ∙ unfold value_of in refl in
      rw negative (unfold read_lld in omega (arith, digits, ltb→lt addr (2 ^ 63)))
]
