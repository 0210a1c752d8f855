-- ===== src/Unlocked/Lap.antt =====
-- The first lap of the ring, before an index is wrapped.
use node2x6x2b.Base.{
  ℕ, ◌+◌, ◌%◌, ◌≤◌, ◌<◌, ◌≡◌, refl, sym, ap, arith, Bool-cases, Option, none, some, ltb, ◌==◌,
  update, inl, inr,
}
use native.Mathlib.Decide.{dec_lt}
use node2x6x2b.Unlocked.{
  buff_max, iter, Place, Ring, produce_step, consume_step, Reach, produces, consumes, starts, next,
}

-- What a thread knows at its place.
unfoldable pub Gave : Place → ℕ → (ℕ → ℕ) → (ℕ → ℕ) → Type 0
Gave Place.add given buff items = buff given ≡ items given
Gave _ given buff items = Unit

unfoldable pub Takes : Place → ℕ → ℕ → (ℕ → ℕ) → (ℕ → ℕ) → Type 0
Takes Place.access given taken got items = taken < given
Takes Place.add given taken got items = (taken < given) × (got taken ≡ items taken)
Takes _ given taken got items = Unit

-- The indices are the counts, `Consumer` is not ahead, and what it has got are the items, in order.
record IsFirst (s : Ring) (p q : Place) : Type 0 where
  pub in_is : s.in_at ≡ s.given
  pub out_is : s.out_at ≡ s.taken
  pub behind : s.taken ≤ s.given
  pub held : (k : ℕ) → k < s.given → s.buff k ≡ s.items k
  pub right : (k : ℕ) → k < s.taken → s.got k ≡ s.items k
  pub producer : Gave p s.given s.buff s.items
  pub consumer : Takes q s.given s.taken s.got s.items

-- What holds behind a step, if it is in the first lap.
abbrev After : Option Ring → Type 0
After none = Unit
After (some s) = s.given < buff_max → IsFirst s s.producer s.consumer

-- A new item leaves what `Consumer` knows true, and so does a count more.
Takes-update :
    (q : Place) (given taken item : ℕ) (got items : ℕ → ℕ)
    → Takes q given taken got items
    → Takes q given taken got (update items given item)
unfolding Takes
Takes-update Place.add given taken item got items (lt, right) = (lt, ground (arith, right))
Takes-update Place.access given taken item got items t = t
Takes-update Place.loop given taken item got items t = tt
Takes-update Place.wait given taken item got items t = tt
Takes-update Place.wrap given taken item got items t = tt
Takes-update Place.end given taken item got items t = tt

Takes-add-one :
    (q : Place) (given taken : ℕ) (got items : ℕ → ℕ)
    → Takes q given taken got items
    → Takes q (given + 1) taken got items
unfolding Takes
Takes-add-one Place.add given taken got items (lt, right) = (omega arith, right)
Takes-add-one Place.access given taken got items t = omega arith
Takes-add-one Place.loop given taken got items t = tt
Takes-add-one Place.wait given taken got items t = tt
Takes-add-one Place.wrap given taken got items t = tt
Takes-add-one Place.end given taken got items t = tt

-- A thread goes to another place.
produce_goes :
    {s : Ring} {p q : Place} (x : Place)
    → IsFirst s p q
    → Gave x s.given s.buff s.items
    → IsFirst s x q
produce_goes x f g = record {
  in_is = f.in_is;
  out_is = f.out_is;
  behind = f.behind;
  held = f.held;
  right = f.right;
  producer = g;
  consumer = f.consumer;
}

moved :
    {s : Ring} {p q : Place} (x y : Place)
    → IsFirst s p q
    → IsFirst (record s { producer = x; consumer = y }) p q
moved x y f = record {
  in_is = f.in_is;
  out_is = f.out_is;
  behind = f.behind;
  held = f.held;
  right = f.right;
  producer = f.producer;
  consumer = f.consumer;
}

consume_goes :
    {s : Ring} {p q : Place} (x : Place)
    → IsFirst s p q
    → Takes x s.given s.taken s.got s.items
    → IsFirst s p x
consume_goes x f t = record {
  in_is = f.in_is;
  out_is = f.out_is;
  behind = f.behind;
  held = f.held;
  right = f.right;
  producer = f.producer;
  consumer = t;
}

at_places : {p q p' q' : Place} (s : Ring) → p ≡ p' → q ≡ q' → IsFirst s p q → IsFirst s p' q'
at_places s e e' f = rw (← e, ← e') f

produce_step-IsFirst :
    (item : ℕ) (p : Place) (s : Ring)
    → s.producer ≡ p
    → IsFirst s p s.consumer
    → After (produce_step item p s)
unfolding produce_step Gave
produce_step-IsFirst item Place.loop s at f = λ lap. elim (Bool-cases (ltb s.given iter)) [
  | inl more ↦ rw more (produce_goes Place.wait (moved Place.wait s.consumer f) tt)
  | inr over ↦ rw over (produce_goes Place.end (moved Place.end s.consumer f) tt)
]
produce_step-IsFirst item Place.wait s at f =
    elim (Bool-cases ((s.in_at + 1) % buff_max == s.out_at)) [
      | inl full ↦ rw full (λ lap. at_places s (sym at) refl f)
      | inr room ↦ rw room (λ lap. produce_goes Place.access (moved Place.access s.consumer f) tt)
    ]
produce_step-IsFirst item Place.access s at f = λ lap. record {
  in_is = f.in_is;
  out_is = f.out_is;
  behind = f.behind;
  held = λ k lt. ground (arith, f.held k, f.in_is);
  right = λ k lt. ground (arith, f.right k, f.behind);
  producer = ground (arith, f.in_is);
  consumer = Takes-update s.consumer s.given s.taken item s.got s.items f.consumer;
}
produce_step-IsFirst item Place.add s at f = λ lap. record {
  in_is = omega (arith, f.in_is);
  out_is = f.out_is;
  behind = omega (arith, f.behind);
  held = λ k lt. elim (dec_lt k s.given) [
    | yes before ↦ f.held k before
    | no last ↦ let at_end : k ≡ s.given = omega arith in rw at_end f.producer
  ];
  right = f.right;
  producer = tt;
  consumer = Takes-add-one s.consumer s.given s.taken s.got s.items f.consumer;
}
produce_step-IsFirst item Place.wrap s at f = λ lap. record {
  in_is = omega (arith, f.in_is);
  out_is = f.out_is;
  behind = f.behind;
  held = f.held;
  right = f.right;
  producer = tt;
  consumer = f.consumer;
}
produce_step-IsFirst item Place.end s at f = tt

consume_step-IsFirst :
    (q : Place) (s : Ring) → s.consumer ≡ q → IsFirst s s.producer q → After (consume_step q s)
unfolding consume_step Takes
consume_step-IsFirst Place.loop s at f = λ lap. elim (Bool-cases (ltb s.taken iter)) [
  | inl more ↦ rw more (consume_goes Place.wait (moved s.producer Place.wait f) tt)
  | inr over ↦ rw over (consume_goes Place.end (moved s.producer Place.end f) tt)
]
consume_step-IsFirst Place.wait s at f = elim (Bool-cases (s.in_at == s.out_at)) [
  | inl empty ↦ rw empty (λ lap. at_places s refl (sym at) f)
  | inr some_left ↦ rw some_left (λ lap.
      consume_goes Place.access (moved s.producer Place.access f)
        (ground (arith, f.in_is, f.out_is, f.behind)))
]
consume_step-IsFirst Place.access s at f = λ lap. record {
  in_is = f.in_is;
  out_is = f.out_is;
  behind = f.behind;
  held = f.held;
  right = λ k lt. ground (arith, f.right k);
  producer = f.producer;
  consumer = (f.consumer, ground (arith, f.held s.taken, f.out_is, ap s.buff f.out_is));
}
consume_step-IsFirst Place.add s at f = λ lap. record {
  in_is = f.in_is;
  out_is = omega (arith, f.out_is);
  behind = omega (arith, f.consumer);
  held = f.held;
  right = λ k lt. elim (dec_lt k s.taken) [
    | yes before ↦ f.right k before
    | no last ↦ let at_end : k ≡ s.taken = omega arith in rw at_end f.consumer.1
  ];
  producer = f.producer;
  consumer = tt;
}
consume_step-IsFirst Place.wrap s at f = λ lap. record {
  in_is = f.in_is;
  out_is = omega (arith, f.out_is, f.behind);
  behind = f.behind;
  held = f.held;
  right = f.right;
  producer = f.producer;
  consumer = tt;
}
consume_step-IsFirst Place.end s at f = tt

-- No step Takes an item back.
abbrev Grows : ℕ → Option Ring → Type 0
Grows n none = Unit
Grows n (some s) = n ≤ s.given

produce_step-Grows : (item : ℕ) (p : Place) (s : Ring) → Grows s.given (produce_step item p s)
unfolding produce_step
produce_step-Grows item Place.wait s = elim (Bool-cases ((s.in_at + 1) % buff_max == s.out_at)) [
  | inl full ↦ rw full (omega arith)
  | inr room ↦ rw room (omega arith)
]
produce_step-Grows item Place.loop s = omega arith
produce_step-Grows item Place.access s = omega arith
produce_step-Grows item Place.add s = omega arith
produce_step-Grows item Place.wrap s = omega arith
produce_step-Grows item Place.end s = tt

consume_step-Grows : (q : Place) (s : Ring) → Grows s.given (consume_step q s)
unfolding consume_step
consume_step-Grows Place.wait s = elim (Bool-cases (s.in_at == s.out_at)) [
  | inl empty ↦ rw empty (omega arith)
  | inr some_left ↦ rw some_left (omega arith)
]
consume_step-Grows Place.loop s = omega arith
consume_step-Grows Place.access s = omega arith
consume_step-Grows Place.add s = omega arith
consume_step-Grows Place.wrap s = omega arith
consume_step-Grows Place.end s = tt

-- As long as fewer than `BUFF_MAX` items have been given, in every state that the threads can reach: `Consumer`
-- has got the items in their order, and none that was not given.
Reach-IsFirst : (s : Ring) → Reach s → s.given < buff_max → IsFirst s s.producer s.consumer
unfolding Gave Takes
Reach-IsFirst s (starts buff items got) lap = record {
  in_is = refl;
  out_is = refl;
  behind = omega arith;
  held = λ k lt. absurd (omega arith);
  right = λ k lt. absurd (omega arith);
  producer = tt;
  consumer = tt;
}
Reach-IsFirst s' (next s s'' reach (produces item q)) lap =
    let grown : s.given ≤ s'.given = rw q at (produce_step-Grows item s.producer s) in
    let first = Reach-IsFirst s reach (omega arith) in
    let after : s'.given < buff_max → IsFirst s' s'.producer s'.consumer =
      rw q at (produce_step-IsFirst item s.producer s refl first) in
    after lap
Reach-IsFirst s' (next s s'' reach (consumes q)) lap =
    let grown : s.given ≤ s'.given = rw q at (consume_step-Grows s.consumer s) in
    let first = Reach-IsFirst s reach (omega arith) in
    let after : s'.given < buff_max → IsFirst s' s'.producer s'.consumer =
      rw q at (consume_step-IsFirst s.consumer s refl first) in
    after lap
