-- ===== src/Spread/Overtaken.antt =====
-- A run where all consumers are between their inner loop and `fetch_add` at once.
use node2x6x2b.Base.{
  ◌*◌, ℕ, zero, suc, ◌+◌, ◌/◌, ◌%◌, ◌≤◌, ◌<◌, ◌≡◌, refl, arith, true, false, some, ltb, ◌==◌,
  update,
}
use native.Mathlib.Nat.{le-div_iff_mul-le}
use native.Mathlib.Numerals.{suc-eq-add-one}
use node2x6x2b.Spread.{
  iter, Place, Spread, at_start, produce_step, consume_step, Reach, produces, consumes, starts,
  next,
}

-- One item has been given, and the first `j` consumers have seen it.
record HasSeen (j : ℕ) (s : Spread) : Type 0 where
  in_is : s.in_at ≡ 1
  out_is : s.out_at ≡ 0
  given_is : s.given ≡ 1
  none_taken : (i : ℕ) → s.taken i ≡ 0
  seen : (i : ℕ) → i < j → s.consumers i ≡ Place.add
  waiting : (i : ℕ) → j ≤ i → s.consumers i ≡ Place.loop

-- The first `j` of `max` consumers have taken the item.
pub record HasTaken (max j : ℕ) (s : Spread) : Type 0 where
  pub given_is : s.given ≡ 1
  pub one_each : (i : ℕ) → i < j → s.taken i ≡ 1
  pub none_yet : (i : ℕ) → j ≤ i → i < max → s.taken i ≡ 0
  pub ready : (i : ℕ) → j ≤ i → i < max → s.consumers i ≡ Place.add

-- A run of `Producer` alone, to its first item.
abbrev given_one : Spread
given_one = record at_start { in_at = 1; given = 1 }

gives : (max : ℕ) → Reach max given_one
unfolding produce_step
gives max =
    next _ _
      (next _ _
        (next _ _ (next _ _ (next _ _ starts (produces refl)) (produces refl)) (produces refl))
        (produces refl))
      (produces refl)

module _ (max : ℕ) (small : max ≤ iter) where
  has_rounds : (j c : ℕ) → j < max → c ≡ 0 → ltb c (iter / max) ≡ true
  has_rounds j c lt none_yet =
      let pos : 0 < max = omega arith in
      let fits : 1 * max ≤ iter = omega arith in
      let some_rounds : 1 ≤ iter / max =
        (le-div_iff_mul-le {k = max} {x = 1} {y = iter} pos).1 fits in
      ground arith

  -- A consumer more sees the item.
  sees :
      (j : ℕ) (s : Spread)
      → j < max
      → Reach max s
      → HasSeen j s
      → (s' : Spread) × Reach max s' × HasSeen (j + 1) s'
  unfolding consume_step
  sees j s lt reach f =
      let at_loop : s.consumers j ≡ Place.loop = f.waiting j (omega arith) in
      let more = has_rounds j (s.taken j) lt (f.none_taken j) in
      let s1 : Spread = record s { consumers = update s.consumers j Place.wait } in
      let to_wait : consume_step max j (s.consumers j) s ≡ some s1 = rw (at_loop, more) refl in
      let at_wait : s1.consumers j ≡ Place.wait = ground arith in
      let some_left : (s1.in_at == s1.out_at) ≡ false = ground (arith, f.in_is, f.out_is) in
      let s2 : Spread = record s1 { consumers = update s1.consumers j Place.add } in
      let to_add : consume_step max j (s1.consumers j) s1 ≡ some s2 =
        rw (at_wait, some_left) refl in
      (
        s2,
        next s1 s2 (next s s1 reach (consumes j lt to_wait)) (consumes j lt to_add),
        record {
          in_is = f.in_is;
          out_is = f.out_is;
          given_is = f.given_is;
          none_taken = f.none_taken;
          seen = λ i lt'. ground (arith, f.seen i);
          waiting = λ i le. ground (arith, f.waiting i);
        },
      )

  all_see : (j : ℕ) → j ≤ max → (s : Spread) × Reach max s × HasSeen j s
  all_see zero le = (
    given_one,
    gives max,
    record {
      in_is = refl;
      out_is = refl;
      given_is = refl;
      none_taken = λ i. refl;
      seen = λ i lt. absurd (omega arith);
      waiting = λ i le. refl;
    },
  )
  all_see (suc j) le =
      let (s, reach, f) = all_see j (omega arith) in
      let (s', reach', f') = sees j s (omega arith) reach f in
      (s', reach', rw (suc-eq-add-one j) f')

  -- A consumer more takes it.
  takes :
      (j : ℕ) (s : Spread)
      → j < max
      → Reach max s
      → HasTaken max j s
      → (s' : Spread) × Reach max s' × HasTaken max (j + 1) s'
  unfolding consume_step
  takes j s lt reach f =
      let at_add : s.consumers j ≡ Place.add = f.ready j (omega arith) lt in
      let s1 : Spread = record s {
        out_at = s.out_at + 1;
        consumers = update s.consumers j Place.load;
      } in
      let adds : consume_step max j (s.consumers j) s ≡ some s1 = rw at_add refl in
      let at_load : s1.consumers j ≡ Place.load = ground arith in
      let s2 : Spread = record s1 {
        consumers = update s1.consumers j (Place.store (s1.out_at % 200));
      } in
      let loads : consume_step max j (s1.consumers j) s1 ≡ some s2 = rw at_load refl in
      let at_store : s2.consumers j ≡ Place.store (s1.out_at % 200) = ground arith in
      let s3 : Spread = record s2 {
        out_at = s1.out_at % 200;
        taken = update s2.taken j (s2.taken j + 1);
        consumers = update s2.consumers j Place.loop;
      } in
      let stores : consume_step max j (s2.consumers j) s2 ≡ some s3 = rw at_store refl in
      (
        s3,
        next s2 s3 (next s1 s2 (next s s1 reach (consumes j lt adds)) (consumes j lt loads))
            (consumes j lt stores),
        record {
          given_is = f.given_is;
          one_each = λ i few. ground (arith, f.one_each i, f.none_yet j);
          none_yet = λ i le few. ground (arith, f.none_yet i);
          ready = λ i le few. ground (arith, f.ready i);
        },
      )

  all_take : (j : ℕ) → j ≤ max → (s : Spread) × Reach max s × HasTaken max j s
  all_take zero le =
      let (s, reach, f) = all_see max (omega arith) in
      (
        s,
        reach,
        record {
          given_is = f.given_is;
          one_each = λ i few. absurd (omega arith);
          none_yet = λ i le' few. f.none_taken i;
          ready = λ i le' few. f.seen i few;
        },
      )
  all_take (suc j) le =
      let (s, reach, f) = all_take j (omega arith) in
      let (s', reach', f') = takes j s (omega arith) reach f in
      (s', reach', rw (suc-eq-add-one j) f')

-- For any number of consumers up to `ITER`, there is a state that the threads can reach where one item has been given
-- and every consumer has taken one: the same item is taken by all.
pub spread_overtaken : (max : ℕ) → max ≤ iter → (s : Spread) × Reach max s × HasTaken max max s
spread_overtaken max small = all_take max small max (omega arith)
