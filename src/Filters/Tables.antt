-- ===== src/Filters/Tables.antt =====
-- The filters of a table of addresses: what the loops count, and that no address is missed.
use node2x6x2b.Base.{
  ℕ, zero, suc, ◌≤◌, ◌<◌, ◌≡◌, refl, ◌∙◌, arith, true, ◌&&◌, List, sum_below, sum_below-le,
  sum_below-eq, sum_below-zero, sum_below-plus, sum_below-single, le-sum_below, sum_below-none,
  sum_below-suc,
}
use node2x6x2b.Hash.{hash, filter_size}
use node2x6x2b.Hash.Reference.{hash-lt}
use node2x6x2b.Samples.{Track}
use node2x6x2b.Samples.History.{Represents, count, hits}
use node2x6x2b.Filters.{numb_bits_set, intersect_filter, total_frequency}
use node2x6x2b.Filters.Sums.{
  where_set, numb_bits_set-sum, total_frequency-sum, intersect_filter-sums,
}

-- Each address has one slot.
hits_once : (a : ℕ) → sum_below filter_size (λ h. hits h a) ≡ 1
hits_once a =
    sum_below-single filter_size (hash a) (λ h. hits h a) (hash-lt a) (λ h ne. ground arith)
    ∙ ground arith

-- Over all slots, `n` addresses have `n` hits.
all_hits :
    (n : ℕ) (mem : ℕ → ℕ) → sum_below filter_size (λ h. sum_below n (λ i. hits h (mem i))) ≡ n
all_hits zero mem = sum_below-zero filter_size _ (λ h p. sum_below-none (λ i. hits h (mem i)))
all_hits (suc n) mem =
    sum_below-eq filter_size _ _ (λ h p. sum_below-suc n (λ i. hits h (mem i)))
    ∙ sum_below-plus filter_size (λ h. sum_below n (λ i. hits h (mem i))) (λ h. hits h (mem n))
    ∙ omega (arith, all_hits n mem, hits_once (mem n))

module _ {tr : Track} {history : List ℕ} (rep : Represents tr history) where
  slot-flag :
      (h : ℕ)
      → h < filter_size
      → where_set (tr.filter h) (tr.filter_freq h)
        ≡ sum_below tr.mem_addr_index (λ i. hits h (tr.mem_addr i))
  slot-flag h p = ground (arith, rep.flags h p, rep.slots h p)

  -- `TotalFrequency` of a table is the number of distinct addresses in it, however often each of them
  -- was sampled.
  pub total_frequency-Represents : total_frequency tr.filter tr.filter_freq ≡ tr.mem_addr_index
  total_frequency-Represents =
      total_frequency-sum tr.filter tr.filter_freq
      ∙ sum_below-eq filter_size _ _ slot-flag
      ∙ all_hits tr.mem_addr_index tr.mem_addr

  -- At most one flag is set for each address.
  pub numb_bits_set-le : numb_bits_set tr.filter ≤ tr.mem_addr_index
  numb_bits_set-le = omega (
    arith,
    numb_bits_set-sum tr.filter,
    total_frequency-sum tr.filter tr.filter_freq,
    total_frequency-Represents,
    sum_below-le filter_size (λ h. where_set (tr.filter h) 1)
        (λ h. where_set (tr.filter h) (tr.filter_freq h)) (λ h p. ground (arith, rep.flags h p)),
  )

  -- The filter misses no address: the slot of each recorded one is set, and counted.
  filter_complete :
      (a : ℕ) → 0 < count a history → (tr.filter (hash a) ≡ true) × (0 < tr.filter_freq (hash a))
  filter_complete a p =
      let (i, q, e) = rep.complete a p in
      let f = λ (j : ℕ). hits (hash a) (tr.mem_addr j) in
      let one : f i ≡ 1 = rw e (ground arith) in
      let some_hit : 0 < tr.filter_freq (hash a) =
        omega (arith, rep.slots (hash a) (hash-lt a), le-sum_below tr.mem_addr_index i f q, one) in
      (ground (arith, some_hit, rep.flags (hash a) (hash-lt a)), some_hit)

-- An address that two tables have recorded shows in the intersection of their filters and in both of
-- its frequencies: threads whose filters do not meet share no address.
pub intersect_filter-shared :
    {tr1 tr2 : Track} {history1 history2 : List ℕ} (a : ℕ)
    → Represents tr1 history1
    → Represents tr2 history2
    → 0 < count a history1
    → 0 < count a history2
    → let r = intersect_filter tr1.filter tr2.filter tr1.filter_freq tr2.filter_freq 0 0 in
      (0 < r.count) × (0 < r.count_freq1) × (0 < r.count_freq2)
intersect_filter-shared {tr1} {tr2} a rep1 rep2 p1 p2 =
    let (f1, q1) = filter_complete rep1 a p1 in
    let (f2, q2) = filter_complete rep2 a p2 in
    rw (intersect_filter-sums tr1.filter tr2.filter tr1.filter_freq tr2.filter_freq 0 0) (
      meets (λ h. 1) f1 f2 (omega arith),
      omega (arith, meets tr1.filter_freq f1 f2 q1),
      omega (arith, meets tr2.filter_freq f1 f2 q2),
    )
  where
    meets :
        (q : ℕ → ℕ)
        → tr1.filter (hash a) ≡ true
        → tr2.filter (hash a) ≡ true
        → 0 < q (hash a)
        → 0 < sum_below filter_size (λ h. where_set (tr1.filter h && tr2.filter h) (q h))
    meets q f1 f2 pos = ground (
      arith,
      le-sum_below filter_size (hash a) (λ h. where_set (tr1.filter h && tr2.filter h) (q h))
          (hash-lt a),
    )

-- A table with an address has a flag.
pub numb_bits_set-pos :
    {tr : Track} {history : List ℕ}
    → Represents tr history
    → 0 < tr.mem_addr_index
    → 0 < numb_bits_set tr.filter
numb_bits_set-pos {tr} {history} rep pos =
    let a = tr.mem_addr 0 in
    let (flag, slot) = filter_complete rep a (rep.seen 0 pos) in
    let one : where_set (tr.filter (hash a)) 1 ≡ 1 = rw flag refl in
    omega (
      arith,
      one,
      numb_bits_set-sum tr.filter,
      le-sum_below filter_size (hash a) (λ h. where_set (tr.filter h) 1) (hash-lt a),
    )
