-- ===== src/Filters/Bounds.antt =====
-- What holds of the loops for any two filters: the intersection is part of each filter, and does not
-- depend on the order of the two.
use node2x6x2b.Base.{ℕ, ◌≤◌, ◌≡◌, arith, Bool, ◌&&◌, sum_below, sum_below-le, sum_below-eq}
use node2x6x2b.Hash.{filter_size}
use node2x6x2b.Filters.{numb_bits_set, intersect_filter, total_frequency}
use node2x6x2b.Filters.Sums.{
  where_set, numb_bits_set-sum, total_frequency-sum, intersect_filter-sums,
}

module _ (f1 f2 : ℕ → Bool) (q1 q2 : ℕ → ℕ) where
  -- The intersection counts at most the flags of each filter and at most the frequency of each, so none
  -- of the printed shares passes 100 percent.
  pub intersect_filter-le :
      let r = intersect_filter f1 f2 q1 q2 0 0 in
      (r.count ≤ numb_bits_set f1)
      × (r.count ≤ numb_bits_set f2)
      × (r.count_freq1 ≤ total_frequency f1 q1)
      × (r.count_freq2 ≤ total_frequency f2 q2)
  intersect_filter-le =
      rw
        (
          intersect_filter-sums f1 f2 q1 q2 0 0,
          numb_bits_set-sum f1,
          numb_bits_set-sum f2,
          total_frequency-sum f1 q1,
          total_frequency-sum f2 q2,
        )
        (
          sum_below-le filter_size _ _ (λ h p. ground arith),
          sum_below-le filter_size _ _ (λ h p. ground arith),
          omega (
            arith,
            sum_below-le filter_size (λ h. where_set (f1 h && f2 h) (q1 h))
                (λ h. where_set (f1 h) (q1 h)) (λ h p. ground arith),
          ),
          omega (
            arith,
            sum_below-le filter_size (λ h. where_set (f1 h && f2 h) (q2 h))
                (λ h. where_set (f2 h) (q2 h)) (λ h p. ground arith),
          ),
        )

  -- With the filters and their counters exchanged the two frequencies are exchanged.
  pub intersect_filter_comm :
      let r = intersect_filter f1 f2 q1 q2 0 0 in
      intersect_filter f2 f1 q2 q1 0 0
      ≡ record { count = r.count; count_freq1 = r.count_freq2; count_freq2 = r.count_freq1 }
  intersect_filter_comm =
      rw (intersect_filter-sums f1 f2 q1 q2 0 0, intersect_filter-sums f2 f1 q2 q1 0 0)
        (ground (arith, swapped (λ h. 1), swapped q1, swapped q2))
    where
      swapped :
          (q : ℕ → ℕ)
          → sum_below filter_size (λ h. where_set (f2 h && f1 h) (q h))
            ≡ sum_below filter_size (λ h. where_set (f1 h && f2 h) (q h))
      swapped q = sum_below-eq filter_size _ _ (λ h p. ground arith)
