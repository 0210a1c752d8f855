-- ===== src/Lanes/Steps.antt =====
-- One pair: the steps of `Producer` and of `Consumer`, and the queue.
use node2x6x2b.Base.{
  ℕ, ◌+◌, ◌%◌, ◌≤◌, ◌<◌, ◌≡◌, ◌≢◌, refl, ap, arith, Bool-cases, Option, none, some, ltb, ◌==◌,
  update, inl, inr,
}
use native.Mathlib.Decide.{dec_lt}
use node2x6x2b.Lanes.{buff_max, iter, Place, Lane, produce_step, consume_step}
use node2x6x2b.Lanes.One.{Gave, Takes, IsQueue, Takes-given, Gave-taken, produce_goes, consume_goes}

-- What holds behind a step, if there is one.
abbrev pub After : Option Lane → Type 0
After none = Unit
After (some s) = IsQueue s

-- The slot of the next item is none of those in use.
slot_fresh :
    (k given taken : ℕ)
    → taken ≤ k
    → k < given
    → given < taken + buff_max
    → k % buff_max ≢ given % buff_max
slot_fresh k given taken le lt few = λ same. omega (arith, same)

room_left :
    (given taken : ℕ)
    → given < taken + buff_max
    → (given % buff_max + 1) % buff_max ≢ taken % buff_max
    → given + 1 < taken + buff_max
room_left given taken few room = omega (arith, room)

left_over : (given taken : ℕ) → taken ≤ given → given % buff_max ≢ taken % buff_max → taken < given
left_over given taken le some_left = omega (arith, some_left)

next_slot : (i n : ℕ) → i ≡ n % buff_max → (i + 1) % buff_max ≡ (n + 1) % buff_max
next_slot i n is = omega (arith, is)

pub produce_step-IsQueue :
    (item : ℕ) (p : Place) (s : Lane) → s.producer ≡ p → IsQueue s → After (produce_step item p s)
unfolding produce_step Gave
produce_step-IsQueue item Place.loop s at f = elim (Bool-cases (ltb s.given iter)) [
  | inl more ↦ rw more (produce_goes s Place.wait f (ground (arith, more)))
  | inr over ↦ rw over (produce_goes s Place.end f (ground (arith, over, f.all)))
]
produce_step-IsQueue item Place.wait s at f =
    let g : Gave Place.wait s = rw at at f.producer in
    elim (Bool-cases ((s.in_at + 1) % buff_max == s.out_at)) [
      | inl full ↦ rw full f
      | inr room ↦ rw room (
          produce_goes s Place.access f
            (g, room_left s.given s.taken f.few (ground (arith, room, f.in_is, f.out_is))))
    ]
produce_step-IsQueue item Place.access s at f =
    let g : Gave Place.access s = rw at at f.producer in
    record {
      in_is = f.in_is;
      out_is = f.out_is;
      behind = f.behind;
      few = f.few;
      all = f.all;
      held = λ k le lt.
          let apart = slot_fresh k s.given s.taken le lt f.few in
          ground (arith, f.held k le lt, f.in_is, apart);
      right = λ k lt. ground (arith, f.right k lt, f.behind);
      producer = (g.0, g.1, ground (arith, f.in_is));
      consumer =
          Takes-given s.consumer s
            (record s {
              buff = update s.buff s.in_at item;
              items = update s.items s.given item;
              producer = Place.move;
            })
            refl (omega arith) refl (λ lt. ground (arith, lt)) f.consumer;
    }
produce_step-IsQueue item Place.move s at f =
    let g : Gave Place.move s = rw at at f.producer in
    record {
      in_is = next_slot s.in_at s.given f.in_is;
      out_is = f.out_is;
      behind = omega (arith, f.behind);
      few = g.1;
      all = omega (arith, g.0);
      held = λ k le lt. elim (dec_lt k s.given) [
        | yes before ↦ f.held k le before
        | no last ↦ let at_end : k ≡ s.given = omega arith in rw at_end g.2
      ];
      right = f.right;
      producer = tt;
      consumer =
          Takes-given s.consumer s
            (record s {
              in_at = (s.in_at + 1) % buff_max;
              given = s.given + 1;
              producer = Place.loop;
            })
            refl (omega arith) refl (λ lt. refl) f.consumer;
    }
produce_step-IsQueue item Place.end s at f = tt

pub consume_step-IsQueue :
    (q : Place) (s : Lane) → s.consumer ≡ q → IsQueue s → After (consume_step q s)
unfolding consume_step Takes
consume_step-IsQueue Place.loop s at f = elim (Bool-cases (ltb s.taken iter)) [
  | inl more ↦ rw more (consume_goes s Place.wait f (ground (arith, more)))
  | inr over ↦ rw over (consume_goes s Place.end f (ground (arith, over, f.all, f.behind)))
]
consume_step-IsQueue Place.wait s at f =
    let t : Takes Place.wait s = rw at at f.consumer in
    elim (Bool-cases (s.in_at == s.out_at)) [
      | inl empty ↦ rw empty f
      | inr some_left ↦ rw some_left (
          consume_goes s Place.access f
            (t, left_over s.given s.taken f.behind (ground (arith, some_left, f.in_is, f.out_is))))
    ]
consume_step-IsQueue Place.access s at f =
    let t : Takes Place.access s = rw at at f.consumer in
    record {
      in_is = f.in_is;
      out_is = f.out_is;
      behind = f.behind;
      few = f.few;
      all = f.all;
      held = f.held;
      right = λ k lt. ground (arith, f.right k lt);
      producer =
          Gave-taken s.producer s
            (record s { got = update s.got s.taken (s.buff s.out_at); consumer = Place.move }) refl
            (omega arith) (λ h. refl) (λ k. refl) f.producer;
      consumer = (
        t.0,
        t.1,
        ground (arith, f.held s.taken (omega arith) t.1, f.out_is, ap s.buff f.out_is),
      );
    }
consume_step-IsQueue Place.move s at f =
    let t : Takes Place.move s = rw at at f.consumer in
    record {
      in_is = f.in_is;
      out_is = next_slot s.out_at s.taken f.out_is;
      behind = omega (arith, t.1);
      few = omega (arith, f.few);
      all = f.all;
      held = λ k le lt. f.held k (omega (arith, le)) lt;
      right = λ k lt. elim (dec_lt k s.taken) [
        | yes before ↦ f.right k before
        | no last ↦ let at_end : k ≡ s.taken = omega arith in rw at_end t.2
      ];
      producer =
          Gave-taken s.producer s
            (record s {
              out_at = (s.out_at + 1) % buff_max;
              taken = s.taken + 1;
              consumer = Place.loop;
            })
            refl (omega arith) (λ h. refl) (λ k. refl) f.producer;
      consumer = tt;
    }
consume_step-IsQueue Place.end s at f = tt
