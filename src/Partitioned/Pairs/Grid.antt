-- ===== src/Partitioned/Pairs/Grid.antt =====
-- The pairs of `n` filters, row by row, and their number.
use node2x6x2b.Base.{
  ℕ, zero, suc, ◌+◌, ◌-◌, ◌≤◌, ◌<◌, ◌≡◌, refl, ap, arith, ◌&&◌, List, [], ◌∷◌, ◌++◌, ltb,
  if◌then◌else◌,
}
use node2x6x2b.Partitioned.Filters.{max_filters, Bfilter}
use node2x6x2b.Partitioned.Pairs.{PairRow, pair_row}

-- The rows of the pairs `(i, j)` with `i < j < n`, for the `j` from the given one on.
unfoldable pub line : (ℕ → Bfilter) → ℕ → ℕ → ℕ → ℕ → List PairRow
line s n i zero j = []
line s n i (suc left) j =
    if ltb i j && ltb j n then pair_row s i j ∷ line s n i left (j + 1) else line s n i left (j + 1)

-- The rows of all pairs `(i, j)` with `i < j < n`, for the `i` from the given one on.
unfoldable pub grid : (ℕ → Bfilter) → ℕ → ℕ → ℕ → List PairRow
grid s n zero i = []
grid s n (suc left) i = line s n i max_filters 0 ++ grid s n left (i + 1)

pub line-at :
    (s : ℕ → Bfilter) (n i left j : ℕ)
    → i < j
    → j < n
    → line s n i (suc left) j ≡ pair_row s i j ∷ line s n i left (j + 1)
unfolding line
line-at s n i left j lt lt' = ground arith

pub line-past : (s : ℕ → Bfilter) (n i left j : ℕ) → n ≤ j → line s n i left j ≡ []
unfolding line
line-past s n i zero j le = refl
line-past s n i (suc left) j le = ground (arith, line-past s n i left (j + 1) (omega arith))

-- The pairs of `m` filters.
unfoldable pub triangle : ℕ → ℕ
triangle zero = 0
triangle (suc m) = triangle m + m

pub triangle-down : (n i : ℕ) → i < n → triangle (n - i) ≡ n - 1 - i + triangle (n - (i + 1))
unfolding triangle
triangle-down n i lt = let next : n - i ≡ suc (n - (i + 1)) = omega arith in rw next (omega arith)

triangle-add : (a m : ℕ) → triangle m ≤ triangle (a + m)
unfolding triangle
triangle-add zero m = let same : 0 + m ≡ m = omega arith in rw same (omega arith)
triangle-add (suc a) m =
    let next : suc a + m ≡ suc (a + m) = omega arith in rw next (omega (arith, triangle-add a m))

pub triangle_mono : (m n : ℕ) → m ≤ n → triangle m ≤ triangle n
triangle_mono m n le = let gap : (n - m) + m ≡ n = omega arith in rw gap at (triangle-add (n - m) m)

pub triangle-14 : triangle 14 ≡ 91
unfolding triangle
triangle-14 = refl

pub triangle-15 : triangle 15 ≡ 105
unfolding triangle
triangle-15 = refl

pub triangle-all : (n : ℕ) → triangle (n - 0) ≡ triangle n
triangle-all n = let same : n - 0 ≡ n = omega arith in ap triangle same

pub triangle-none : (n i : ℕ) → n ≤ i → triangle (n - i) ≡ 0
unfolding triangle
triangle-none n i le = let none_left : n - i ≡ 0 = omega arith in rw none_left refl

line-outside : (s : ℕ → Bfilter) (n i left j : ℕ) → n ≤ i → line s n i left j ≡ []
unfolding line
line-outside s n i zero j le = refl
line-outside s n i (suc left) j le = ground (arith, line-outside s n i left (j + 1) le)

pub grid-outside : (s : ℕ → Bfilter) (n left i : ℕ) → n ≤ i → grid s n left i ≡ []
unfolding grid
grid-outside s n zero i le = refl
grid-outside s n (suc left) i le =
    rw (line-outside s n i max_filters 0 le, grid-outside s n left (i + 1) (omega arith)) refl
