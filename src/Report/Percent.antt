-- ===== src/Report/Percent.antt =====
-- The rows of `checkIntersection`: how many there are, and that each percentage is one.
use node2x6x2b.Base.{
  ℕ, zero, suc, ◌+◌, ◌-◌, ◌*◌, ◌≤◌, ◌<◌, ◌≡◌, arith, Bool-cases, List, [], ◌∷◌, ◌++◌, All, length,
  length-append, inl, inr, ltb, ◌==◌, if◌then◌else◌,
}
use node2x6x2b.Samples.{Track, ThreadInfo, Globals}
use node2x6x2b.Samples.History.{Represents}
use node2x6x2b.Samples.Thread.{Stored, Inv}
use node2x6x2b.Filters.Bounds.{intersect_filter-le}
use node2x6x2b.Filters.Tables.{total_frequency-Represents, numb_bits_set-pos}
use node2x6x2b.Report.{Shares, shares, PairRow, pair_row, rows_with, all_rows, check_intersection}

-- No divisor is 0, and no quotient passes 1.
pub record IsShare (s : Shares) : Type 0 where
  pub t1_pos : 0 < s.t1
  pub t2_pos : 0 < s.t2
  pub freqt1_pos : 0 < s.freqt1
  pub freqt2_pos : 0 < s.freqt2
  pub inter1 : s.inter ≤ s.t1
  pub inter2 : s.inter ≤ s.t2
  pub part1 : s.freq_t1 ≤ s.freqt1
  pub part2 : s.freq_t2 ≤ s.freqt2

shares-IsShare :
    {tr1 tr2 : Track} {h1 h2 : List ℕ}
    → Represents tr1 h1
    → Represents tr2 h2
    → 0 < tr1.mem_addr_index
    → 0 < tr2.mem_addr_index
    → IsShare (shares tr1 tr2)
unfolding shares
shares-IsShare {tr1} {tr2} r1 r2 p1 p2 =
    let (i1, i2, q1, q2) =
      intersect_filter-le tr1.filter tr2.filter tr1.filter_freq tr2.filter_freq in
    record {
      t1_pos = numb_bits_set-pos r1 p1;
      t2_pos = numb_bits_set-pos r2 p2;
      freqt1_pos = omega (arith, total_frequency-Represents r1);
      freqt2_pos = omega (arith, total_frequency-Represents r2);
      inter1 = i1;
      inter2 = i2;
      part1 = q1;
      part2 = q2;
    }

abbrev pub IsFine : PairRow → Type 0
IsFine r = IsShare r.virt × IsShare r.phys

module _ {g : Globals} {stored : List Stored} (inv : Inv g stored) where
  pair_row-IsFine :
      (i j : ℕ)
      → i < g.thread_index
      → j < g.thread_index
      → IsFine (pair_row (g.threads i) (g.threads j))
  pair_row-IsFine i j p q = (
    shares-IsShare (inv.virt i p) (inv.virt j q) (inv.populated i p).0 (inv.populated j q).0,
    shares-IsShare (inv.phys i p) (inv.phys j q) (inv.populated i p).1 (inv.populated j q).1,
  )

  rows_with-IsFine :
      (i left j : ℕ)
      → i < g.thread_index
      → j + left ≤ g.thread_index
      → All IsFine (rows_with g.threads i left j)
  unfolding rows_with
  rows_with-IsFine i zero j p q = tt
  rows_with-IsFine i (suc left) j p q =
      let rest = rows_with-IsFine i left (j + 1) p (omega arith) in
      elim (Bool-cases (i == j)) [
        | inl same ↦ rw same rest
        | inr other ↦ rw other (pair_row-IsFine i j p (omega arith), rest)
      ]

All-append : (xs ys : List PairRow) → All IsFine xs → All IsFine ys → All IsFine (xs ++ ys)
All-append [] ys h k = k
All-append (x ∷ xs) ys h k = (h.0, All-append xs ys h.1 k)

all_rows-IsFine :
    {g : Globals} {stored : List Stored} (inv : Inv g stored) (left i : ℕ)
    → i + left ≤ g.thread_index
    → All IsFine (all_rows g.threads g.thread_index left i)
unfolding all_rows
all_rows-IsFine inv zero i p = tt
all_rows-IsFine {g} inv (suc left) i p =
    All-append (rows_with g.threads i g.thread_index 0)
      (all_rows g.threads g.thread_index left (i + 1))
      (rows_with-IsFine inv i g.thread_index 0 (omega arith) (omega arith))
      (all_rows-IsFine inv left (i + 1) (omega arith))

-- In every row the counts and the totals that are divided by are positive, and no share passes 100
-- percent, where the tables are right.
pub check_intersection-IsFine :
    (g : Globals) (stored : List Stored) → Inv g stored → All IsFine (check_intersection g)
unfolding check_intersection
check_intersection-IsFine g stored inv = all_rows-IsFine inv g.thread_index 0 (omega arith)

length-rows_with :
    (threads : ℕ → ThreadInfo) (i left j : ℕ)
    → length (rows_with threads i left j)
        + (if ltb i (j + left) then (if ltb i j then 0 else 1) else 0)
      ≡ left
unfolding rows_with
length-rows_with threads i zero j = ground arith
length-rows_with threads i (suc left) j = ground (arith, length-rows_with threads i left (j + 1))

length-all_rows :
    (threads : ℕ → ThreadInfo) (n left i : ℕ)
    → i + left ≤ n
    → length (all_rows threads n left i) ≡ left * (n - 1)
unfolding all_rows
length-all_rows threads n zero i p = omega arith
length-all_rows threads n (suc left) i p =
    let split = length-append (rows_with threads i n 0) (all_rows threads n left (i + 1)) in
    let row = length-rows_with threads i n 0 in
    let rest = length-all_rows threads n left (i + 1) (omega arith) in ground arith

-- There is a row for each ordered pair of distinct threads.
length-check_intersection :
    (g : Globals) → length (check_intersection g) ≡ g.thread_index * (g.thread_index - 1)
unfolding check_intersection
length-check_intersection g =
    length-all_rows g.threads g.thread_index g.thread_index 0 (omega arith)
