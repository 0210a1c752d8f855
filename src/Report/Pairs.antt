-- ===== src/Report/Pairs.antt =====
-- `checkPair` adds one pair and never another.
use node2x6x2b.Base.{ℕ, zero, suc, ◌+◌, ◌<◌, ◌≡◌, ◌≢◌, refl, arith, ◌⊎◌, inl, inr, ap}
use node2x6x2b.Report.{
  PairTable, returns, goes_on, pair_loop, result, endless, after_loop, check_pair,
}

stays :
    (rounds : ℕ) (t : PairTable) (i j : ℕ)
    → 0 < t.pair_index
    → (pair_loop rounds t 0 i j ≡ returns) ⊎ (pair_loop rounds t 0 i j ≡ goes_on)
unfolding pair_loop
stays zero t i j h = inr refl
stays (suc rounds) t i j h = ground (arith, stays rounds t (i + 1) j)

-- With a pair in the table the call puts none: within any number of rounds it returns 0, with the table
-- as it was, or it has not returned.
check_pair_once :
    (rounds : ℕ) (t : PairTable) (i j : ℕ)
    → 0 < t.pair_index
    → (check_pair rounds t i j ≡ result t 0) ⊎ (check_pair rounds t i j ≡ endless)
unfolding check_pair
check_pair_once rounds t i j h = elim (stays rounds t i j h) [
  | inl e ↦ inl (ap (after_loop t j) e)
  | inr e ↦ inr (ap (after_loop t j) e)
]

never :
    (rounds : ℕ) (t : PairTable) (i j : ℕ)
    → 0 < t.pair_index
    → (t.pairs 0).j ≢ j
    → (t.pairs 0).i ≢ j
    → pair_loop rounds t 0 i j ≡ goes_on
unfolding pair_loop
never zero t i j h a b = refl
never (suc rounds) t i j h a b = ground (arith, never rounds t (i + 1) j)

-- Where the second thread is in no way part of the first pair of the table, no number of rounds ends
-- the loop.
check_pair-endless :
    (rounds : ℕ) (t : PairTable) (i j : ℕ)
    → 0 < t.pair_index
    → (t.pairs 0).j ≢ j
    → (t.pairs 0).i ≢ j
    → check_pair rounds t i j ≡ endless
unfolding check_pair
check_pair-endless rounds t i j h a b = ap (after_loop t j) (never rounds t i j h a b)
