-- ===== src/Partitioned/Pairs/Once.antt =====
-- `check_intersection_filter` compares each pair of threads once, and how many pairs `P` can hold.
use node2x6x2b.Base.{
  ℕ, zero, suc, ◌+◌, ◌-◌, ◌≤◌, ◌<◌, ◌≡◌, refl, ap, ◌∙◌, arith, true, false, Option, none, some,
  List, [], ◌++◌, length, append_assoc, append-nil, ltb, ◌>>=◌,
}
use native.Mathlib.Decide.{dec_lt}
use node2x6x2b.Partitioned.Filters.{max_filters, Bfilter}
use node2x6x2b.Partitioned.Pairs.{
  Pair, max_pairs, check_pair, Progress, outer_loop, check_intersection_filter,
}
use node2x6x2b.Partitioned.Pairs.Grid.{
  line, grid, triangle, triangle-down, triangle_mono, triangle-14, triangle-15, triangle-all,
  triangle-none, grid-outside,
}
use node2x6x2b.Partitioned.Pairs.Row.{Handled, to_come, Row, inner_loop-Row, overflows, ends}

-- The result of the outer loop.
data Rows (s : ℕ → Bfilter) (n i left : ℕ) (p : Progress) (r : Option Progress) : Type 0 where
  breaks : r ≡ none → max_pairs < length p.pairs + triangle (n - i) → Rows s n i left p r
  finishes :
      (ps : List Pair)
      → r ≡ some (record { pairs = ps; rows = p.rows ++ grid s n left i })
      → length ps ≡ length p.pairs + triangle (n - i)
      → length ps ≤ max_pairs
      → Rows s n i left p r

row-Rows :
    {s : ℕ → Bfilter} {n i left : ℕ} {p : Progress} (ps : List Pair) {r : Option Progress}
    → i < n
    → length ps ≡ length p.pairs + to_come n i 0
    → Rows s n (i + 1) left (record { pairs = ps; rows = p.rows ++ line s n i max_filters 0 }) r
    → Rows s n i (suc left) p r
unfolding grid
row-Rows {s} {n} {i} ps lt same (breaks q many) = breaks q (ground (arith, triangle-down n i lt))
row-Rows {s} {n} {i} {left} {p} ps lt same (finishes ps' q same' room) =
    finishes ps'
      (q
        ∙ ap (λ rows. some (record { pairs = ps'; rows = rows }))
            (append_assoc p.rows (line s n i max_filters 0) (grid s n left (i + 1))))
      (ground (arith, triangle-down n i lt)) room

onward-Rows :
    {s : ℕ → Bfilter} {n i left : ℕ} {p : Progress} {r : Option Progress}
    → i < n
    → Row s n i max_filters 0 p r
    → ((ps : List Pair)
        → Handled ps n (i + 1) 0
        → length ps ≤ max_pairs
        → let q : Progress = record { pairs = ps; rows = p.rows ++ line s n i max_filters 0 } in
          Rows s n (i + 1) left q (outer_loop left (i + 1) s q))
    → Rows s n i (suc left) p (r >>= outer_loop left (i + 1) s)
onward-Rows {s} {n} {i} lt (overflows q many) rest =
    rw q (breaks refl (ground (arith, triangle-down n i lt)))
onward-Rows lt (ends ps q handled same room) rest =
    rw q (row-Rows ps lt same (rest ps handled room))

module _ (s : ℕ → Bfilter) (n : ℕ) (few : n ≤ max_filters)
    (taken : (i : ℕ) → i < max_filters → (s i).taken ≡ ltb i n) where
  outer_loop-Rows :
      (left i : ℕ) (p : Progress)
      → i + left ≡ max_filters
      → i ≤ n
      → Handled p.pairs n i 0
      → length p.pairs ≤ max_pairs
      → Rows s n i left p (outer_loop left i s p)
  unfolding outer_loop grid
  outer_loop-Rows zero i p end le handled room =
      finishes p.pairs (rw (append-nil p.rows) refl)
        (omega (arith, triangle-none n i (omega (arith, end)))) room
  outer_loop-Rows (suc left) i p end le handled room = elim (dec_lt i n) [
    | no over ↦
        let stop : (s i).taken ≡ false = ground (arith, taken i) in
        rw stop (
          finishes p.pairs
            (rw (grid-outside s n (suc left) i (omega arith), append-nil p.rows) refl)
            (omega (arith, triangle-none n i)) room)
    | yes lt ↦
        let go : (s i).taken ≡ true = ground (arith, taken i) in
        rw go (
          onward-Rows lt
            (inner_loop-Row s n few taken max_filters 0 i p refl lt (omega arith) handled room)
            (λ ps handled' room'.
              outer_loop-Rows left (i + 1)
                (record { pairs = ps; rows = p.rows ++ line s n i max_filters 0 })
                (omega (arith, end)) (omega arith) handled' room'))
  ]

check_intersection_filter-Rows :
    (s : ℕ → Bfilter) (n : ℕ)
    → n ≤ max_filters
    → ((i : ℕ) → i < max_filters → (s i).taken ≡ ltb i n)
    → Rows s n 0 max_filters (record { pairs = []; rows = [] }) (check_intersection_filter s)
unfolding check_intersection_filter check_pair
check_intersection_filter-Rows s n few taken =
    outer_loop-Rows s n few taken max_filters 0 (record { pairs = []; rows = [] }) refl
      (omega arith) (λ a b lt bound. ground arith) (omega arith)

-- With at most 14 filters, each pair of filters is compared once, in order.
pub check_intersection_filter-once :
    (s : ℕ → Bfilter) (n : ℕ)
    → n ≤ 14
    → ((i : ℕ) → i < max_filters → (s i).taken ≡ ltb i n)
    → (ps : List Pair) × (check_intersection_filter s
        ≡ some (record { pairs = ps; rows = grid s n max_filters 0 }))
      × (length ps ≡ triangle n)
check_intersection_filter-once s n le taken =
    elim (check_intersection_filter-Rows s n (omega arith) taken) [
      | breaks q many ↦
          absurd (omega (arith, many, triangle-all n, triangle_mono n 14 le, triangle-14))
      | finishes ps q same room ↦ (ps, q, omega (arith, same, triangle-all n))
    ]

-- With 15 to 20 filters, `insertPair` writes behind `P`: 15 have 105 pairs.
check_intersection_filter-overflow :
    (s : ℕ → Bfilter) (n : ℕ)
    → 14 < n
    → n ≤ max_filters
    → ((i : ℕ) → i < max_filters → (s i).taken ≡ ltb i n)
    → check_intersection_filter s ≡ none
check_intersection_filter-overflow s n many few taken =
    elim (check_intersection_filter-Rows s n few taken) [
      | breaks q many' ↦ q
      | finishes ps q same room ↦
          absurd (omega (arith, same, triangle-all n, triangle_mono 15 n many, triangle-15))
    ]
