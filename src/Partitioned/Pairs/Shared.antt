-- ===== src/Partitioned/Pairs/Shared.antt =====
-- What `check_intersection_filter` counts for a pair of filters.
use node2x6x2b.Base.{
  ℕ, zero, suc, ◌+◌, ◌*◌, ◌^◌, List, ◌≤◌, ◌<◌, ◌≡◌, ◌↔◌, refl, sym, ap, ◌∙◌, arith, Bool, true,
  ◌&&◌, ltb, if◌then◌else◌, sum_below, sum_below-none, sum_below-add-one, le-sum_below, inl, inr,
  Bool-cases,
}
use native.Mathlib.Decide.{dec_lt}
use node2x6x2b.Partitioned.Filters.{filter_size, Bfilter, slot}
use node2x6x2b.Partitioned.Filters.Index.{slot-lt}
use node2x6x2b.Partitioned.Filters.Bank.{Entry, count, IsBank, count-le-hits}
use node2x6x2b.Partitioned.Pairs.{
  Stats, no_stats, count_first, count_second, count_both, stats_loop, check_in_range,
  check_partitions, check_res_filter, pair_row,
}

-- 1 for a slot that is set.
abbrev pub bit : Bool → ℕ
bit b = if b then 1 else 0

abbrev pub weight : Bool → ℕ → ℕ
weight b n = if b then n else 0

-- The counters behind the first `k` slots.
record IsCounted (f g : Bfilter) (k : ℕ) (st : Stats) : Type 0 where
  pub set1 : st.set_in_filter1 ≡ sum_below k (λ h. bit (f.filter h))
  pub set2 : st.set_in_filter2 ≡ sum_below k (λ h. bit (g.filter h))
  pub fr1 : st.fr_in_filter1 ≡ sum_below k (λ h. weight (f.filter h) (f.frequency h))
  pub fr2 : st.fr_in_filter2 ≡ sum_below k (λ h. weight (g.filter h) (g.frequency h))
  pub both : st.intersection_bit_count ≡ sum_below k (λ h. bit (f.filter h && g.filter h))
  pub both_fr1 :
      st.intersect_fr_in_filter1
      ≡ sum_below k (λ h. weight (f.filter h && g.filter h) (f.frequency h))
  pub both_fr2 :
      st.intersect_fr_in_filter2
      ≡ sum_below k (λ h. weight (f.filter h && g.filter h) (g.frequency h))
  pub result : (h : ℕ) → st.res_filter h ≡ (ltb h k && (f.filter h && g.filter h))

no_stats-IsCounted : (f g : Bfilter) → IsCounted f g 0 no_stats
no_stats-IsCounted f g = record {
  set1 = sym (sum_below-none (λ h. bit (f.filter h)));
  set2 = sym (sum_below-none (λ h. bit (g.filter h)));
  fr1 = sym (sum_below-none (λ h. weight (f.filter h) (f.frequency h)));
  fr2 = sym (sum_below-none (λ h. weight (g.filter h) (g.frequency h)));
  both = sym (sum_below-none (λ h. bit (f.filter h && g.filter h)));
  both_fr1 = sym (sum_below-none (λ h. weight (f.filter h && g.filter h) (f.frequency h)));
  both_fr2 = sym (sum_below-none (λ h. weight (f.filter h && g.filter h) (g.frequency h)));
  result = λ h. ground arith;
}

step-IsCounted :
    (f g : Bfilter) (k : ℕ) (st : Stats)
    → IsCounted f g k st
    → IsCounted f g (k + 1) (count_both f g k (count_second g k (count_first f k st)))
step-IsCounted f g k st c = record {
  set1 = ground (arith, c.set1, sum_below-add-one k (λ h. bit (f.filter h)));
  set2 = ground (arith, c.set2, sum_below-add-one k (λ h. bit (g.filter h)));
  fr1 = ground (arith, c.fr1, sum_below-add-one k (λ h. weight (f.filter h) (f.frequency h)));
  fr2 = ground (arith, c.fr2, sum_below-add-one k (λ h. weight (g.filter h) (g.frequency h)));
  both = ground (arith, c.both, sum_below-add-one k (λ h. bit (f.filter h && g.filter h)));
  both_fr1 = ground (
    arith,
    c.both_fr1,
    sum_below-add-one k (λ h. weight (f.filter h && g.filter h) (f.frequency h)),
  );
  both_fr2 = ground (
    arith,
    c.both_fr2,
    sum_below-add-one k (λ h. weight (f.filter h && g.filter h) (g.frequency h)),
  );
  result = λ h. ground (arith, c.result h);
}

stats_loop-IsCounted :
    (left k : ℕ) (f g : Bfilter) (st : Stats)
    → IsCounted f g k st
    → IsCounted f g (k + left) (stats_loop left k f g st)
unfolding stats_loop
stats_loop-IsCounted zero k f g st c = let same : k + 0 ≡ k = omega arith in rw same c
stats_loop-IsCounted (suc left) k f g st c =
    let next : k + suc left ≡ k + 1 + left = omega arith in
    rw next (
      stats_loop-IsCounted left (k + 1) f g
        (count_both f g k (count_second g k (count_first f k st))) (step-IsCounted f g k st c))

-- The counters of a pair of filters are sums over all slots.
pair_row-IsCounted :
    (s : ℕ → Bfilter) (i j : ℕ) → IsCounted (s i) (s j) filter_size (pair_row s i j).stats
unfolding pair_row
pair_row-IsCounted s i j =
    stats_loop-IsCounted filter_size 0 (s i) (s j) no_stats (no_stats-IsCounted (s i) (s j))

check_in_range-hit :
    (res : ℕ → Bool) (left i h : ℕ)
    → i ≤ h
    → h < i + left
    → res h ≡ true
    → check_in_range res left i ≡ true
unfolding check_in_range
check_in_range-hit res zero i h le lt set = absurd (omega arith)
check_in_range-hit res (suc left) i h le lt set = elim (dec_lt i h) [
  | yes before ↦
      ground (arith, check_in_range-hit res left (i + 1) h (omega arith) (omega arith) set)
  | no here ↦ let at : h ≡ i = omega arith in ground (arith, ap res at)
]

check_in_range-some :
    (res : ℕ → Bool) (left i : ℕ)
    → check_in_range res left i ≡ true
    → (h : ℕ) × (i ≤ h) × (h < i + left) × (res h ≡ true)
unfolding check_in_range
check_in_range-some res zero i found = cc
check_in_range-some res (suc left) i found = elim (Bool-cases (res i)) [
  | inl here ↦ (i, omega arith, omega arith, here)
  | inr other ↦
      let rest : check_in_range res left (i + 1) ≡ true = ground arith in
      let (h, le, lt, set) = check_in_range-some res left (i + 1) rest in
      (h, omega arith, omega arith, set)
]

check_res_filter-range : (res : ℕ → Bool) → check_res_filter res ≡ check_in_range res filter_size 0
unfolding check_res_filter check_partitions
check_res_filter-range res = refl

-- The row says that the threads share addresses where a slot is set in both filters, and nowhere else.
pair_row-intersects :
    (s : ℕ → Bfilter) (i j : ℕ)
    → ((pair_row s i j).intersects ≡ true)
      ↔ ((h : ℕ) × (h < filter_size) × ((s i).filter h ≡ true) × ((s j).filter h ≡ true))
unfolding pair_row
pair_row-intersects s i j = (forth, back)
  where
    res : ℕ → Bool
    res = (pair_row s i j).stats.res_filter

    c : IsCounted (s i) (s j) filter_size (pair_row s i j).stats
    c = pair_row-IsCounted s i j

    forth :
        check_res_filter res ≡ true
        → (h : ℕ) × (h < filter_size) × ((s i).filter h ≡ true) × ((s j).filter h ≡ true)
    forth found =
        let (h, le, lt, set) =
          check_in_range-some res filter_size 0 (sym (check_res_filter-range res) ∙ found) in
        (h, lt, ground (arith, c.result h), ground (arith, c.result h))

    back :
        ((h : ℕ) × (h < filter_size) × ((s i).filter h ≡ true) × ((s j).filter h ≡ true))
        → check_res_filter res ≡ true
    back (h, lt, set, set') =
        check_res_filter-range res
        ∙ check_in_range-hit res filter_size 0 h (omega arith) lt (c.result h ∙ ground arith)

own-slot :
    {s : ℕ → Bfilter} {used : ℕ} {entries : List Entry} (i addr : ℕ)
    → IsBank s used entries
    → i < used
    → slot addr 0 filter_size < filter_size
    → 0 < count (s i).thread_id addr entries
    → (s i).filter (slot addr 0 filter_size) ≡ true
own-slot {s} {used} {entries} i addr bank lt inside has =
    let h = slot addr 0 filter_size in
    ground (
      arith,
      bank.flags i h,
      bank.counted i h,
      bank.few,
      count-le-hits (s i).thread_id addr entries,
    )

-- Two threads of a bank that both have the address, which is positive and 6 times of which is a `long`, share
-- it by their row.
pub pair_row-shared :
    {s : ℕ → Bfilter} {used : ℕ} {entries : List Entry} (i j addr : ℕ)
    → IsBank s used entries
    → i < used
    → j < used
    → 0 < addr
    → 6 * addr < 2 ^ 63
    → 0 < count (s i).thread_id addr entries
    → 0 < count (s j).thread_id addr entries
    → ((pair_row s i j).intersects ≡ true) × (0 < (pair_row s i j).stats.intersection_bit_count)
pair_row-shared {s} {used} {entries} i j addr bank lt lt' pos small has has' =
    let h = slot addr 0 filter_size in
    let inside : h < filter_size = slot-lt addr pos small in
    let set = own-slot i addr bank lt inside has in
    let set' = own-slot j addr bank lt' inside has' in
    let c = pair_row-IsCounted s i j in
    (
      (pair_row-intersects s i j).1 (h, inside, set, set'),
      ground (
        arith,
        c.both,
        set,
        set',
        le-sum_below filter_size h (λ k. bit ((s i).filter k && (s j).filter k)) inside,
      ),
    )
