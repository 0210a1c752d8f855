-- ===== src/Filters/Sums.antt =====
-- The loops over filters as sums over the slots.
use node2x6x2b.Base.{
  ℕ, zero, suc, ◌+◌, ◌≡◌, sym, arith, Bool, ◌&&◌, if◌then◌else◌, sum_below, sum_below-add-one,
  sum_below-none,
}
use node2x6x2b.Hash.{filter_size}
use node2x6x2b.Filters.{
  bits_loop, numb_bits_set, Intersection, intersect_loop, intersect_filter, frequency_loop,
  total_frequency,
}

-- What a slot adds to a sum: `x` if its flag is set.
abbrev pub where_set : Bool → ℕ → ℕ
where_set b x = if b then x else 0

bits_loop-sum :
    (filter : ℕ → Bool) (left i n count : ℕ)
    → i + left ≡ n
    → count ≡ sum_below i (λ h. where_set (filter h) 1)
    → bits_loop filter left i count ≡ sum_below n (λ h. where_set (filter h) 1)
unfolding bits_loop
bits_loop-sum filter zero i n count e h = let e' : i ≡ n = omega arith in rw (← e') h
bits_loop-sum filter (suc left) i n count e h =
    bits_loop-sum filter left (i + 1) n (if filter i then count + 1 else count) (omega arith)
      (ground (arith, sum_below-add-one i (λ h. where_set (filter h) 1)))

pub numb_bits_set-sum :
    (filter : ℕ → Bool) → numb_bits_set filter ≡ sum_below filter_size (λ h. where_set (filter h) 1)
unfolding numb_bits_set
numb_bits_set-sum filter =
    bits_loop-sum filter filter_size 0 filter_size 0 (omega arith)
      (sym (sum_below-none (λ h. where_set (filter h) 1)))

frequency_loop-sum :
    (filter : ℕ → Bool) (freq : ℕ → ℕ) (left i n total : ℕ)
    → i + left ≡ n
    → total ≡ sum_below i (λ h. where_set (filter h) (freq h))
    → frequency_loop filter freq left i total ≡ sum_below n (λ h. where_set (filter h) (freq h))
unfolding frequency_loop
frequency_loop-sum filter freq zero i n total e h = let e' : i ≡ n = omega arith in rw (← e') h
frequency_loop-sum filter freq (suc left) i n total e h =
    frequency_loop-sum filter freq left (i + 1) n (if filter i then total + freq i else total)
      (omega arith) (ground (arith, sum_below-add-one i (λ h. where_set (filter h) (freq h))))

pub total_frequency-sum :
    (filter : ℕ → Bool) (freq : ℕ → ℕ)
    → total_frequency filter freq ≡ sum_below filter_size (λ h. where_set (filter h) (freq h))
unfolding total_frequency
total_frequency-sum filter freq =
    frequency_loop-sum filter freq filter_size 0 filter_size 0 (omega arith)
      (sym (sum_below-none (λ h. where_set (filter h) (freq h))))

module _ (filter1 filter2 : ℕ → Bool) (freq1 freq2 : ℕ → ℕ) (from1 from2 : ℕ) where
  abbrev both : ℕ → Bool
  both h = filter1 h && filter2 h

  -- The sums over the first `n` slots, from the given values of the two counters.
  abbrev pub sums : ℕ → Intersection
  sums n = record {
    count = sum_below n (λ h. where_set (both h) 1);
    count_freq1 = from1 + sum_below n (λ h. where_set (both h) (freq1 h));
    count_freq2 = from2 + sum_below n (λ h. where_set (both h) (freq2 h));
  }

  intersect_loop-sums :
      (left i n : ℕ) (r : Intersection)
      → i + left ≡ n
      → r ≡ sums i
      → intersect_loop filter1 filter2 freq1 freq2 left i r ≡ sums n
  unfolding intersect_loop
  intersect_loop-sums zero i n r e h = let e' : i ≡ n = omega arith in rw (← e') h
  intersect_loop-sums (suc left) i n r e h = intersect_loop-sums left (i + 1) n _ (omega arith) (
      ground (
        arith,
        sum_below-add-one i (λ h. where_set (both h) 1),
        sum_below-add-one i (λ h. where_set (both h) (freq1 h)),
        sum_below-add-one i (λ h. where_set (both h) (freq2 h)),
      ))

  pub intersect_filter-sums :
      intersect_filter filter1 filter2 freq1 freq2 from1 from2 ≡ sums filter_size
  unfolding intersect_filter
  intersect_filter-sums = intersect_loop-sums filter_size 0 filter_size _ (omega arith) (
      ground (
        arith,
        sum_below-none (λ h. where_set (both h) 1),
        sum_below-none (λ h. where_set (both h) (freq1 h)),
        sum_below-none (λ h. where_set (both h) (freq2 h)),
      ))
