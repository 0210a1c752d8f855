-- ===== src/Partitioned/Text/Numbers.antt =====
-- Which numbers `typeTID` and `typeAddr` give.
use node2x6x2b.Base.{
  ℕ, zero, suc, ◌+◌, ◌*◌, ◌/◌, ◌%◌, ◌^◌, ◌<◌, ◌≡◌, refl, ap, ◌∙◌, arith, true, Bool-cases, inl, inr,
  ltb→lt, List, [], ◌∷◌, ◌++◌, u64, ltb,
}
use node2x6x2b.Hash.Decimal.{decimal}
use node2x6x2b.Partitioned.Text.{char_value, tid_loop, type_tid, addr_step, addr_loop, type_addr}
use native.Mathlib.Nat.{pow-suc}

char_value_digit : (size d : ℕ) → d < 10 → char_value size (b'0' + d) ≡ b'0' + d
unfolding char_value
char_value_digit size d h = ground arith

-- The digits of `n` before others, read from 0, leave `n`.
tid_loop-decimal :
    (fuel n : ℕ) (below : List ℕ)
    → n < 10 ^ suc fuel
    → n < 2 ^ 32
    → tid_loop 0 (decimal (suc fuel) n below) ≡ tid_loop n below
unfolding tid_loop decimal
tid_loop-decimal zero n below h small =
    let here : ltb n 10 ≡ true = ground arith in
    rw here
      (ap (λ (t : ℕ). tid_loop t below) (omega (arith, char_value_digit (2 ^ 32) n (omega arith))))
tid_loop-decimal (suc fuel) n below h small = elim (Bool-cases (ltb n 10)) [
  | inl last ↦ rw last (
      ap (λ (t : ℕ). tid_loop t below)
        (omega (arith, char_value_digit (2 ^ 32) n (ltb→lt n 10 last), ltb→lt n 10 last)))
  | inr more ↦ rw more (
      tid_loop-decimal fuel (n / 10) ((b'0' + n % 10) ∷ below)
        (omega (arith, pow-suc 10 (suc fuel))) (omega arith)
      ∙ ap (λ (t : ℕ). tid_loop t below)
          (omega (arith, char_value_digit (2 ^ 32) (n % 10) (omega arith))))
]

-- The decimal text of a thread identifier is read as that identifier.
type_tid-decimal : (n : ℕ) → n < 2 ^ 31 → type_tid (decimal 20 n []) ≡ n
unfolding type_tid
type_tid-decimal n h =
    tid_loop-decimal 19 n [] (omega arith) (omega arith) ∙ unfold tid_loop in refl

addr_step_digit : (a d : ℕ) → d < 10 → addr_step a (b'0' + d) ≡ u64 (a * 10 + d)
unfolding addr_step char_value
addr_step_digit a d h = ground arith

addr_step_letter : (a e : ℕ) → e < 6 → addr_step a (b'a' + e) ≡ u64 (a * 10 + (e + 10))
unfolding addr_step char_value
addr_step_letter a e h = ground arith

addr_loop-append : (xs ys : List ℕ) (a : ℕ) → addr_loop a (xs ++ ys) ≡ addr_loop (addr_loop a xs) ys
unfolding addr_loop
addr_loop-append [] ys a = refl
addr_loop-append (x ∷ xs) ys a = addr_loop-append xs ys (addr_step a x)

-- The digits of the hexadecimal address are weighed by powers of ten: wherever two addresses agree but for a
-- digit `d` with `a` to `f` behind it in one, and `d + 1` with the digit that is ten less behind it in the
-- other, they are read as the same number.
pub type_addr_collides :
    (before after : List ℕ) (d e : ℕ)
    → d < 9
    → e < 6
    → type_addr (b'0' ∷ b'x' ∷ (before ++ (b'0' + d) ∷ (b'a' + e) ∷ after))
      ≡ type_addr (b'0' ∷ b'x' ∷ (before ++ (b'0' + (d + 1)) ∷ (b'0' + e) ∷ after))
unfolding type_addr addr_loop
type_addr_collides before after d e p q =
    rw
      (
        addr_loop-append before ((b'0' + d) ∷ (b'a' + e) ∷ after) 0,
        addr_loop-append before ((b'0' + (d + 1)) ∷ (b'0' + e) ∷ after) 0,
        same_step (addr_loop 0 before),
      )
      refl
  where
    same_step :
        (a : ℕ)
        → addr_step (addr_step a (b'0' + d)) (b'a' + e)
          ≡ addr_step (addr_step a (b'0' + (d + 1))) (b'0' + e)
    same_step a =
        rw
          (
            addr_step_digit a d (omega arith),
            addr_step_letter (u64 (a * 10 + d)) e q,
            addr_step_digit a (d + 1) (omega arith),
            addr_step_digit (u64 (a * 10 + (d + 1))) e (omega arith),
          )
          (omega arith)
