-- ===== src/Base/Arrays.antt =====
-- C arrays as functions of the index, with sums over a range of indices; lists that are measured
-- and indexed by native numbers.
use Prim.Native.Nat.{ℕ, zero, suc, ◌+◌, ◌≤◌, ◌<◌}
use mathlib.Core.Path.{◌≡◌, refl, ap}
use mathlib.Core.List.{List, [], ◌∷◌, ◌++◌}
use native.Mathlib.Decide.{dec_lt}
use native.Mathlib.Numerals.{add-one}
use native.Mathlib.Omega.{arith}
use mathlib.Core.Bool.{Bool, true, false}
use node2x6x2b.Base.Tests.{◌==◌, if◌then◌else◌}

-- `a[i] = v`
abbrev pub update {ℓ} : {A : Type ℓ} → (ℕ → A) → ℕ → A → ℕ → A
update a i v j = if j == i then v else a j

-- f(0) + … + f(n - 1)
pub sum_below : ℕ → (ℕ → ℕ) → ℕ
sum_below zero f = 0
sum_below (suc n) f = sum_below n f + f n

pub sum_below-le :
    (n : ℕ) (f g : ℕ → ℕ) → ((i : ℕ) → i < n → f i ≤ g i) → sum_below n f ≤ sum_below n g
unfolding sum_below
sum_below-le zero f g h = omega arith
sum_below-le (suc n) f g h =
    omega (arith, sum_below-le n f g (λ i p. h i (omega arith)), h n (omega arith))

pub sum_below-eq :
    (n : ℕ) (f g : ℕ → ℕ) → ((i : ℕ) → i < n → f i ≡ g i) → sum_below n f ≡ sum_below n g
unfolding sum_below
sum_below-eq zero f g h = refl
sum_below-eq (suc n) f g h =
    omega (arith, sum_below-eq n f g (λ i p. h i (omega arith)), h n (omega arith))

pub sum_below-zero : (n : ℕ) (f : ℕ → ℕ) → ((i : ℕ) → i < n → f i ≡ 0) → sum_below n f ≡ 0
unfolding sum_below
sum_below-zero zero f h = refl
sum_below-zero (suc n) f h =
    omega (arith, sum_below-zero n f (λ i p. h i (omega arith)), h n (omega arith))

pub sum_below-add-one : (n : ℕ) (f : ℕ → ℕ) → sum_below (n + 1) f ≡ sum_below n f + f n
unfolding sum_below
sum_below-add-one n f = rw (add-one n) refl

pub sum_below-one : (f : ℕ → ℕ) → sum_below 1 f ≡ f 0
unfolding sum_below
sum_below-one f = omega arith

-- Two sums whose terms agree but at `i`.
pub sum_below-change :
    (n i : ℕ) (f g : ℕ → ℕ)
    → i < n
    → ((j : ℕ) → (j ≡ i → ⊥) → f j ≡ g j)
    → sum_below n f + g i ≡ sum_below n g + f i
unfolding sum_below
sum_below-change zero i f g lt h = absurd (omega arith)
sum_below-change (suc n) i f g lt h = elim (dec_lt i n) [
  | yes before ↦ omega (arith, sum_below-change n i f g before h, h n (λ q. omega arith))
  | no last ↦
      let at_end : n ≡ i = omega arith in
      let same = sum_below-eq n f g (λ j p. h j (λ q. omega arith)) in
      rw (← at_end) (omega (arith, same))
]

pub sum_below-none : (f : ℕ → ℕ) → sum_below 0 f ≡ 0
unfolding sum_below
sum_below-none f = refl

pub sum_below-ones : (n : ℕ) → sum_below n (λ i. 1) ≡ n
unfolding sum_below
sum_below-ones zero = refl
sum_below-ones (suc n) = omega (arith, sum_below-ones n)

pub sum_below-suc : (n : ℕ) (f : ℕ → ℕ) → sum_below (suc n) f ≡ sum_below n f + f n
unfolding sum_below
sum_below-suc n f = refl

pub sum_below-plus :
    (n : ℕ) (f g : ℕ → ℕ) → sum_below n (λ i. f i + g i) ≡ sum_below n f + sum_below n g
unfolding sum_below
sum_below-plus zero f g = omega arith
sum_below-plus (suc n) f g = omega (arith, sum_below-plus n f g)

-- A sum whose only term is that at `k`.
pub sum_below-single :
    (n k : ℕ) (f : ℕ → ℕ) → k < n → ((i : ℕ) → (i ≡ k → ⊥) → f i ≡ 0) → sum_below n f ≡ f k
sum_below-single n k f lt h =
    omega (arith, sum_below-change n k f (λ i. 0) lt h, sum_below-zero n (λ i. 0) (λ i p. refl))

-- Each term is at most the sum.
pub le-sum_below : (n k : ℕ) (f : ℕ → ℕ) → k < n → f k ≤ sum_below n f
unfolding sum_below
le-sum_below zero k f lt = absurd (omega arith)
le-sum_below (suc n) k f lt = elim (dec_lt k n) [
  | yes before ↦ omega (arith, le-sum_below n k f before)
  | no last ↦ let at_end : k ≡ n = omega arith in rw at_end (omega arith)
]

module _ {ℓ} {A : Type ℓ} where
  abbrev pub length : List A → ℕ
  length [] = 0
  length (x ∷ xs) = suc (length xs)

  abbrev pub get_or : List A → ℕ → A → A
  get_or [] i d = d
  get_or (x ∷ xs) zero d = x
  get_or (x ∷ xs) (suc i) d = get_or xs i d

  abbrev pub drop : ℕ → List A → List A
  drop zero xs = xs
  drop (suc n) [] = []
  drop (suc n) (x ∷ xs) = drop n xs

  abbrev pub take : ℕ → List A → List A
  take zero xs = []
  take (suc n) [] = []
  take (suc n) (x ∷ xs) = x ∷ take n xs

  pub append-nil : (xs : List A) → xs ++ [] ≡ xs
  append-nil [] = refl
  append-nil (x ∷ xs) = ap (λ (l : List A). x ∷ l) (append-nil xs)

  pub append_assoc : (xs ys zs : List A) → (xs ++ ys) ++ zs ≡ xs ++ (ys ++ zs)
  append_assoc [] ys zs = refl
  append_assoc (x ∷ xs) ys zs = ap (λ (l : List A). x ∷ l) (append_assoc xs ys zs)

  pub length-append : (xs ys : List A) → length (xs ++ ys) ≡ length xs + length ys
  length-append [] ys = omega arith
  length-append (x ∷ xs) ys = omega (arith, length-append xs ys)

  abbrev pub All {κ} : (A → Type κ) → List A → Type κ
  All P [] = Unit
  All P (x ∷ xs) = P x × All P xs

-- `strcmp(a,b)==0`
unfoldable pub same_text : List ℕ → List ℕ → Bool
same_text [] [] = true
same_text [] (y ∷ ys) = false
same_text (x ∷ xs) [] = false
same_text (x ∷ xs) (y ∷ ys) = let rest = same_text xs ys in if x == y then rest else false

same_text_refl : (xs : List ℕ) → same_text xs xs ≡ true
unfolding same_text
same_text_refl [] = refl
same_text_refl (x ∷ xs) = ground (arith, same_text_refl xs)

pub same_text→eq : (xs ys : List ℕ) → same_text xs ys ≡ true → xs ≡ ys
unfolding same_text
same_text→eq [] [] h = refl
same_text→eq [] (y ∷ ys) h = cc
same_text→eq (x ∷ xs) [] h = cc
same_text→eq (x ∷ xs) (y ∷ ys) h =
    let head : x ≡ y = ground arith in
    let tail : xs ≡ ys = same_text→eq xs ys (ground arith) in rw (head, tail) refl

pub same_text_comm : (xs ys : List ℕ) → same_text xs ys ≡ same_text ys xs
unfolding same_text
same_text_comm [] [] = refl
same_text_comm [] (y ∷ ys) = refl
same_text_comm (x ∷ xs) [] = refl
same_text_comm (x ∷ xs) (y ∷ ys) = ground (arith, same_text_comm xs ys)
