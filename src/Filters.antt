-- ===== src/Filters.antt =====
-- hardcore_new6.c: `numbBitsSet`, `IntersectFilter` and `TotalFrequency`, the three loops over Bloom
-- filters of `M` slots and their counters.
pub mod Sums
pub mod Bounds
pub mod Tables
use node2x6x2b.Base.{ℕ, zero, suc, ◌+◌, Bool, true, false, ◌&&◌, if◌then◌else◌}
use node2x6x2b.Hash.{filter_size}

-- The loop at `i`, with `left` rounds to go; so are those below.
unfoldable pub bits_loop : (ℕ → Bool) → ℕ → ℕ → ℕ → ℕ
bits_loop filter zero i count = count
bits_loop filter (suc left) i count =
    bits_loop filter left (i + 1) (if filter i then count + 1 else count)

unfoldable pub numb_bits_set : (ℕ → Bool) → ℕ
numb_bits_set filter = bits_loop filter filter_size 0 0

-- The returned count, and `*count_freq1` and `*count_freq2`.
pub record Intersection : Type 0 where
  pub count : ℕ
  pub count_freq1 : ℕ
  pub count_freq2 : ℕ

unfoldable pub intersect_loop :
    (ℕ → Bool) → (ℕ → Bool) → (ℕ → ℕ) → (ℕ → ℕ) → ℕ → ℕ → Intersection → Intersection
intersect_loop filter1 filter2 freq1 freq2 zero i r = r
intersect_loop filter1 filter2 freq1 freq2 (suc left) i r =
    intersect_loop filter1 filter2 freq1 freq2 left (i + 1) (
      if filter1 i && filter2 i
      then record {
        count = r.count + 1;
        count_freq1 = r.count_freq1 + freq1 i;
        count_freq2 = r.count_freq2 + freq2 i;
      }
      else r)

unfoldable pub intersect_filter : (ℕ → Bool) → (ℕ → Bool) → (ℕ → ℕ) → (ℕ → ℕ) → ℕ → ℕ → Intersection
intersect_filter filter1 filter2 freq1 freq2 count_freq1 count_freq2 =
    intersect_loop filter1 filter2 freq1 freq2 filter_size 0
      (record { count = 0; count_freq1 = count_freq1; count_freq2 = count_freq2 })

unfoldable pub frequency_loop : (ℕ → Bool) → (ℕ → ℕ) → ℕ → ℕ → ℕ → ℕ
frequency_loop filter freq zero i total = total
frequency_loop filter freq (suc left) i total =
    frequency_loop filter freq left (i + 1) (if filter i then total + freq i else total)

unfoldable pub total_frequency : (ℕ → Bool) → (ℕ → ℕ) → ℕ
total_frequency filter freq = frequency_loop filter freq filter_size 0 0
