-- ===== src/Friends/Turns.antt =====
-- What each thread may rely on at each place of `doSomeThing`.
use node2x6x2b.Base.{
  ℕ, ◌+◌, ◌%◌, ◌<◌, ◌≡◌, refl, arith, Bool, true, false, ◌&&◌, ltb, leb, ◌==◌, if◌then◌else◌,
}
use node2x6x2b.Friends.{count_max, First, Second, Third}

-- Whether a thread holds a lock.
unfoldable pub first_holds1 : First → Bool
first_holds1 First.add1 = true
first_holds1 First.unlock1 = true
first_holds1 _ = false

unfoldable pub first_holds2 : First → Bool
first_holds2 First.add2 = true
first_holds2 First.add3 = true
first_holds2 First.add4 = true
first_holds2 First.add5 = true
first_holds2 First.unlock2 = true
first_holds2 _ = false

unfoldable pub second_holds : Second → Bool
second_holds Second.add = true
second_holds Second.unlock = true
second_holds _ = false

unfoldable pub third_holds : Third → Bool
third_holds Third.add2 = true
third_holds Third.add3 = true
third_holds Third.add4 = true
third_holds Third.add5 = true
third_holds Third.unlock = true
third_holds _ = false

-- What thread 0 knows of `counter1` and of `counter2`.
unfoldable pub first_knows1 : First → ℕ → Bool
first_knows1 First.below1 c = c % 2 == 0
first_knows1 First.lock1 c = c % 2 == 0 && ltb c count_max
first_knows1 First.add1 c = c % 2 == 0 && ltb c count_max
first_knows1 First.leave2 c = leb count_max c
first_knows1 First.end c = leb count_max c
first_knows1 _ c = true

unfoldable pub first_knows2 : First → ℕ → Bool
first_knows2 First.below2 c = c % 2 == 0
first_knows2 First.lock2 c = c % 2 == 0 && ltb c count_max
first_knows2 First.add2 c = c % 2 == 0 && ltb c count_max
first_knows2 First.end c = leb count_max c
first_knows2 _ c = true

-- What thread 1 knows of `counter1`, and thread 2 of `counter2`.
unfoldable pub second_knows : Second → ℕ → Bool
second_knows Second.lock c = c % 2 == 1
second_knows Second.add c = c % 2 == 1
second_knows Second.end c = leb count_max c
second_knows _ c = true

unfoldable pub third_knows : Third → ℕ → Bool
third_knows Third.lock c = c % 2 == 1
third_knows Third.add2 c = c % 2 == 1
third_knows Third.end c = leb count_max c
third_knows _ c = true

-- By how much `counter3`, `counter4` and `counter5` are behind `counter2`.
unfoldable pub first_lag : ℕ → First → ℕ
first_lag k First.add3 = 1
first_lag k First.add4 = if leb 4 k then 1 else 0
first_lag k First.add5 = if leb 5 k then 1 else 0
first_lag k _ = 0

unfoldable pub third_lag : ℕ → Third → ℕ
third_lag k Third.add3 = 1
third_lag k Third.add4 = if leb 4 k then 1 else 0
third_lag k Third.add5 = if leb 5 k then 1 else 0
third_lag k _ = 0

-- An even counter below `MAX` can be made odd: what thread 1 knows stays true.
pub second_knows-even :
    (p : Second) (c : ℕ)
    → c % 2 ≡ 0
    → c < count_max
    → second_knows p c ≡ true
    → second_knows p (c + 1) ≡ true
unfolding second_knows
second_knows-even Second.below c even lt h = refl
second_knows-even Second.odd c even lt h = refl
second_knows-even Second.lock c even lt h = ground arith
second_knows-even Second.add c even lt h = ground arith
second_knows-even Second.unlock c even lt h = refl
second_knows-even Second.end c even lt h = ground arith

pub third_knows-even :
    (p : Third) (c : ℕ)
    → c % 2 ≡ 0
    → c < count_max
    → third_knows p c ≡ true
    → third_knows p (c + 1) ≡ true
unfolding third_knows
third_knows-even Third.lock c even lt h = ground arith
third_knows-even Third.add2 c even lt h = ground arith
third_knows-even Third.end c even lt h = ground arith
third_knows-even _ c even lt h = refl

-- An odd counter can be made even: what thread 0 knows stays true.
pub first_knows1-odd :
    (p : First) (c : ℕ) → c % 2 ≡ 1 → first_knows1 p c ≡ true → first_knows1 p (c + 1) ≡ true
unfolding first_knows1
first_knows1-odd First.below1 c odd h = ground arith
first_knows1-odd First.lock1 c odd h = ground arith
first_knows1-odd First.add1 c odd h = ground arith
first_knows1-odd First.leave2 c odd h = ground arith
first_knows1-odd First.end c odd h = ground arith
first_knows1-odd _ c odd h = refl

pub first_knows2-odd :
    (p : First) (c : ℕ) → c % 2 ≡ 1 → first_knows2 p c ≡ true → first_knows2 p (c + 1) ≡ true
unfolding first_knows2
first_knows2-odd First.below2 c odd h = ground arith
first_knows2-odd First.lock2 c odd h = ground arith
first_knows2-odd First.add2 c odd h = ground arith
first_knows2-odd First.end c odd h = ground arith
first_knows2-odd _ c odd h = refl
