-- ===== src/Partitioned/Pairs/Row.antt =====
-- One run of the inner loop of `check_intersection_filter`.
use node2x6x2b.Base.{
  ℕ, zero, suc, ◌+◌, ◌-◌, ◌≤◌, ◌<◌, ◌≡◌, refl, sym, ap, ◌∙◌, arith, true, false, ◌&&◌, ◌||◌, not,
  Option, none, some, List, [], ◌∷◌, ◌++◌, length, append_assoc, append-nil, ltb, ◌==◌,
  if◌then◌else◌,
}
use native.Mathlib.Decide.{dec_lt}
use node2x6x2b.Partitioned.Filters.{max_filters, Bfilter}
use node2x6x2b.Partitioned.Pairs.{
  Pair, max_pairs, check_pair, insert_pair, pair_row, Progress, inner_loop,
}
use node2x6x2b.Partitioned.Pairs.Grid.{line, line-at, line-past}

check_pair_comm : (ps : List Pair) (i j : ℕ) → check_pair ps i j ≡ check_pair ps j i
unfolding check_pair
check_pair_comm [] i j = refl
check_pair_comm (p ∷ ps) i j = ground (arith, check_pair_comm ps i j)

-- Before `(i, j)`, the table has the pairs before `(i, j)`.
abbrev pub Handled : List Pair → ℕ → ℕ → ℕ → Type 0
Handled ps n i j =
    (a b : ℕ) → a < b → b < n → check_pair ps a b ≡ not (ltb a i || (a == i && ltb b j))

-- How many pairs of row `i` come from `j` on.
abbrev pub to_come : ℕ → ℕ → ℕ → ℕ
to_come n i j = if ltb i j then n - j else n - 1 - i

-- The result of the inner loop.
pub data Row (s : ℕ → Bfilter) (n i left j : ℕ) (p : Progress) (r : Option Progress) : Type 0 where
  overflows : r ≡ none → max_pairs < length p.pairs + to_come n i j → Row s n i left j p r
  ends :
      (ps : List Pair)
      → r ≡ some (record { pairs = ps; rows = p.rows ++ line s n i left j })
      → Handled ps n (i + 1) 0
      → length ps ≡ length p.pairs + to_come n i j
      → length ps ≤ max_pairs
      → Row s n i left j p r

Handled-next : (ps : List Pair) (n i j : ℕ) → n ≤ j → Handled ps n i j → Handled ps n (i + 1) 0
Handled-next ps n i j le handled a b lt bound = ground (arith, handled a b lt bound)

Handled-insert :
    (ps : List Pair) (n i j : ℕ)
    → i < j
    → Handled ps n i j
    → Handled (record { i = i; j = j } ∷ ps) n i (j + 1)
unfolding check_pair
Handled-insert ps n i j lt handled a b lt' bound = ground (arith, handled a b lt' bound)

Handled-skip : (ps : List Pair) (n i j : ℕ) → j ≤ i → Handled ps n i j → Handled ps n i (j + 1)
Handled-skip ps n i j le handled a b lt bound = ground (arith, handled a b lt bound)

-- Where nothing is compared at `j`.
skip-Row :
    {s : ℕ → Bfilter} {n i left j : ℕ} {p : Progress} {r : Option Progress}
    → j ≤ i
    → Row s n i left (j + 1) p r
    → Row s n i (suc left) j p r
unfolding line
skip-Row le (overflows q many) = overflows q (ground arith)
skip-Row le (ends ps q handled same room) = ends ps (ground arith) handled (ground arith) room

-- Where `i` and `j` are compared.
compared-Row :
    {s : ℕ → Bfilter} {n i left j : ℕ} {p : Progress} {r : Option Progress}
    → i < j
    → j < n
    → Row s n i left
        (j + 1)
        (record { pairs = record { i = i; j = j } ∷ p.pairs; rows = p.rows ++ pair_row s i j ∷ [] })
        r
    → Row s n i (suc left) j p r
unfolding line
compared-Row lt lt' (overflows q many) = overflows q (ground arith)
compared-Row {s} {n} {i} {left} {j} {p} lt lt' (ends ps q handled same room) =
    ends ps
      (q
        ∙ ap (λ rows. some (record { pairs = ps; rows = rows }))
            (append_assoc p.rows (pair_row s i j ∷ []) (line s n i left (j + 1))
              ∙ ap (λ l. p.rows ++ l) (sym (line-at s n i left j lt lt'))))
      handled (ground arith) room

module _ (s : ℕ → Bfilter) (n : ℕ) (few : n ≤ max_filters)
    (taken : (i : ℕ) → i < max_filters → (s i).taken ≡ ltb i n) where
  pub inner_loop-Row :
      (left j i : ℕ) (p : Progress)
      → j + left ≡ max_filters
      → i < n
      → j ≤ n
      → Handled p.pairs n i j
      → length p.pairs ≤ max_pairs
      → Row s n i left j p (inner_loop left j i s p)
  unfolding inner_loop insert_pair line
  inner_loop-Row zero j i p end lt le handled room =
      ends p.pairs (rw (append-nil p.rows) refl)
        (Handled-next p.pairs n i j (omega (arith, end, few)) handled) (ground (arith, end, few))
        room
  inner_loop-Row (suc left) j i p end lt le handled room = elim (dec_lt j n) [
    | no over ↦
        let stop : (s j).taken ≡ false = ground (arith, taken j) in
        rw stop (
          ends p.pairs (rw (line-past s n i (suc left) j (omega arith), append-nil p.rows) refl)
            (Handled-next p.pairs n i j (omega arith) handled) (ground arith) room)
    | yes lt' ↦
        let go : (s j).taken ≡ true = ground (arith, taken j) in
        elim (dec_lt i j) [
          | yes later ↦
              let call : (not (i == j) && check_pair p.pairs i j) ≡ true =
                ground (arith, handled i j) in
              elim (dec_lt (length p.pairs) max_pairs) [
                | yes fits ↦
                    let pairs : insert_pair p.pairs i j ≡ some (record { i = i; j = j } ∷ p.pairs) =
                      ground arith in
                    rw (go, call, pairs)
                      (compared-Row later lt' (
                        inner_loop-Row left (j + 1) i
                          (record {
                            pairs = record { i = i; j = j } ∷ p.pairs;
                            rows = p.rows ++ pair_row s i j ∷ [];
                          })
                          (omega (arith, end)) lt (omega arith)
                          (Handled-insert p.pairs n i j later handled) (omega arith)))
                | no full ↦
                    let pairs : insert_pair p.pairs i j ≡ none = ground arith in
                    rw (go, call, pairs) (overflows refl (ground arith))
              ]
          | no earlier ↦
              let skip : (not (i == j) && check_pair p.pairs i j) ≡ false =
                ground (arith, check_pair_comm p.pairs i j, handled j i) in
              rw (go, skip)
                (skip-Row (omega arith) (
                  inner_loop-Row left (j + 1) i p (omega (arith, end)) lt (omega arith)
                    (Handled-skip p.pairs n i j (omega arith) handled) room))
        ]
  ]
