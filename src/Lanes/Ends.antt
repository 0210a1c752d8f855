-- ===== src/Lanes/Ends.antt =====
-- All pairs: the steps that their threads have left, and their runs.
use node2x6x2b.Base.{
  ℕ, zero, suc, ◌+◌, ◌-◌, ◌*◌, ◌%◌, ◌≤◌, ◌<◌, ◌≡◌, ◌≢◌, ◌⊎◌, refl, arith, Bool, false, Bool-cases,
  Option, none, some, ltb, ◌==◌, update, inl, inr, sum_below, sum_below-change,
}
use native.Mathlib.Decide.{dec_lt}
use node2x6x2b.Lanes.{
  buff_max, iter, Place, Lane, produce_step, consume_step, Step, Reach, next, produces, consumes,
}
use node2x6x2b.Lanes.One.{Gave, Takes, IsQueue}
use node2x6x2b.Lanes.Whole.{Reach-IsQueue}

-- The steps that a thread has left at most, with `count` at `c`.
unfoldable pub steps_left : Place → ℕ → ℕ
steps_left Place.loop c = (iter - c) * 4 + 4
steps_left Place.wait c = (iter - c) * 4 + 3
steps_left Place.access c = (iter - c) * 4 + 2
steps_left Place.move c = (iter - c) * 4 + 1
steps_left Place.end c = 0

abbrev pub work : Lane → ℕ
work s = steps_left s.producer s.given + steps_left s.consumer s.taken

-- The thread stands in its busy-wait, and the test sends it round again.
unfoldable pub produce_spins : Place → Lane → Bool
produce_spins Place.wait s = (s.in_at + 1) % buff_max == s.out_at
produce_spins _ s = false

unfoldable pub consume_spins : Place → Lane → Bool
consume_spins Place.wait s = s.in_at == s.out_at
consume_spins _ s = false

-- Any other step of a thread takes one of its steps at least.
abbrev Less : ℕ → Option Lane → Type 0
Less n none = Unit
Less n (some s) = work s < n

produce_step-Less :
    (item : ℕ) (p : Place) (s : Lane)
    → s.producer ≡ p
    → IsQueue s
    → produce_spins p s ≡ false
    → Less (work s) (produce_step item p s)
unfolding produce_step produce_spins steps_left Gave
produce_step-Less item Place.loop s at f go = rw at (elim (Bool-cases (ltb s.given iter)) [
  | inl more ↦ rw more (omega arith)
  | inr over ↦ rw over (omega arith)
])
produce_step-Less item Place.wait s at f go = rw (at, go) (omega arith)
produce_step-Less item Place.access s at f go = rw at (omega arith)
produce_step-Less item Place.move s at f go =
    let g : Gave Place.move s = rw at at f.producer in rw at (omega (arith, g.0))
produce_step-Less item Place.end s at f go = tt

consume_step-Less :
    (q : Place) (s : Lane)
    → s.consumer ≡ q
    → IsQueue s
    → consume_spins q s ≡ false
    → Less (work s) (consume_step q s)
unfolding consume_step consume_spins steps_left Takes
consume_step-Less Place.loop s at f go = rw at (elim (Bool-cases (ltb s.taken iter)) [
  | inl more ↦ rw more (omega arith)
  | inr over ↦ rw over (omega arith)
])
consume_step-Less Place.wait s at f go = rw (at, go) (omega arith)
consume_step-Less Place.access s at f go = rw at (omega arith)
consume_step-Less Place.move s at f go =
    let t : Takes Place.move s = rw at at f.consumer in rw at (omega (arith, t.0))
consume_step-Less Place.end s at f go = tt

abbrev pub total : ℕ → (ℕ → Lane) → ℕ
total n s = sum_below n (λ i. work (s i))

total-update :
    (n i : ℕ) (s : ℕ → Lane) (l : Lane)
    → i < n
    → work l < work (s i)
    → total n (update s i l) < total n s
total-update n i s l small less =
    let change =
      sum_below-change n i (λ k. work (update s i l k)) (λ k. work (s k)) small
        (λ j other. ground (arith, other)) in
    let here : work (update s i l i) ≡ work l = ground arith in omega (arith, change, here)

-- Both threads are behind their loops.
abbrev pub HasEnded : Lane → Type 0
HasEnded s = (s.producer ≡ Place.end) × (s.consumer ≡ Place.end)

-- One thread of the pair has a step that is no round of a busy-wait.
abbrev pub CanStep : Place → Place → Lane → Type 0
CanStep p q s =
    ((produce_spins p s ≡ false) × (l : Lane) × (produce_step 0 p s ≡ some l))
    ⊎ ((consume_spins q s ≡ false) × (l : Lane) × (consume_step q s ≡ some l))

not_empty :
    (given taken : ℕ)
    → taken < given
    → given < taken + buff_max
    → given % buff_max ≢ taken % buff_max
not_empty given taken lt few = λ same. omega (arith, same)

waits : (s : Lane) → IsQueue s → CanStep Place.wait Place.wait s
unfolding produce_step consume_step produce_spins consume_spins
waits s f = elim (Bool-cases ((s.in_at + 1) % buff_max == s.out_at)) [
  | inl full ↦
      let some_left : (s.in_at == s.out_at) ≡ false = ground (arith, full, f.in_is) in
      inr (some_left, record s { consumer = Place.access }, rw some_left)
  | inr room ↦ inl (room, record s { producer = Place.access }, rw room)
]

lane_go_on :
    (p q : Place) (s : Lane)
    → s.producer ≡ p
    → s.consumer ≡ q
    → IsQueue s
    → ((p ≡ Place.end) × (q ≡ Place.end)) ⊎ CanStep p q s
unfolding produce_step consume_step produce_spins consume_spins Gave Takes
lane_go_on Place.loop q s at at' f = inr (inl (refl, _, refl))
lane_go_on Place.access q s at at' f = inr (inl (refl, _, refl))
lane_go_on Place.move q s at at' f = inr (inl (refl, _, refl))
lane_go_on p Place.loop s at at' f = inr (inr (refl, _, refl))
lane_go_on p Place.access s at at' f = inr (inr (refl, _, refl))
lane_go_on p Place.move s at at' f = inr (inr (refl, _, refl))
lane_go_on Place.wait Place.wait s at at' f = inr (waits s f)
lane_go_on Place.wait Place.end s at at' f =
    let g : Gave Place.wait s = rw at at f.producer in
    let t : Takes Place.end s = rw at' at f.consumer in
    let room : ((s.in_at + 1) % buff_max == s.out_at) ≡ false =
      absurd (omega (arith, g, t, f.behind)) in
    inr (inl (room, record s { producer = Place.access }, rw room))
lane_go_on Place.end Place.wait s at at' f =
    let g : Gave Place.end s = rw at at f.producer in
    let t : Takes Place.wait s = rw at' at f.consumer in
    let apart = not_empty s.given s.taken (omega (arith, g, t)) f.few in
    let some_left : (s.in_at == s.out_at) ≡ false = ground (arith, apart, f.in_is, f.out_is) in
    inr (inr (some_left, record s { consumer = Place.access }, rw some_left))
lane_go_on Place.end Place.end s at at' f = inl (refl, refl)

-- A step that leaves fewer steps, 8,000,008 for each pair at the start.
abbrev Forward : ℕ → (ℕ → Lane) → Type 0
Forward n s = (s' : ℕ → Lane) × Step n s s' × (total n s' < total n s)

-- In every state that the threads can reach, a pair whose threads are not both behind their loops has a step that is
-- no round of a busy-wait.
lanes_go_on : {n : ℕ} {s : ℕ → Lane} (i : ℕ) → Reach n s → i < n → HasEnded (s i) ⊎ Forward n s
lanes_go_on {n} {s} i reach small =
    elim (lane_go_on (s i).producer (s i).consumer (s i) refl refl (Reach-IsQueue i reach)) [
      | inl over ↦ inl over
      | inr (inl (go, l, e)) ↦
          let less : Less (work (s i)) (some l) =
            rw e at (produce_step-Less 0 (s i).producer (s i) refl (Reach-IsQueue i reach) go) in
          inr (update s i l, produces i 0 l small e refl, total-update n i s l small less)
      | inr (inr (go, l, e)) ↦
          let less : Less (work (s i)) (some l) =
            rw e at (consume_step-Less (s i).consumer (s i) refl (Reach-IsQueue i reach) go) in
          inr (update s i l, consumes i l small e refl, total-update n i s l small less)
    ]

all_ended :
    {n : ℕ} {s : ℕ → Lane} (m : ℕ)
    → Reach n s
    → m ≤ n
    → ((i : ℕ) → i < m → HasEnded (s i)) ⊎ Forward n s
all_ended zero reach le = inl (λ i lt. absurd (omega arith))
all_ended {n} {s} (suc m) reach le = elim (all_ended m reach (omega arith)) [
  | inl before ↦ elim (lanes_go_on m reach (omega arith)) [
    | inl over ↦ inl (λ i lt. elim (dec_lt i m) [
      | yes earlier ↦ before i earlier
      | no last ↦ let at_end : i ≡ m = omega arith in rw at_end over
    ])
    | inr step ↦ inr step
  ]
  | inr step ↦ inr step
]

-- A run of the threads.
pub data Leads (n : ℕ) : (ℕ → Lane) → (ℕ → Lane) → Type 0 where
  stays : (s : ℕ → Lane) → Leads n s s
  goes : (s s' s'' : ℕ → Lane) → Step n s s' → Leads n s' s'' → Leads n s s''

finish_within :
    {n : ℕ} {s : ℕ → Lane} (rounds : ℕ)
    → Reach n s
    → total n s < rounds
    → (s' : ℕ → Lane) × Leads n s s' × ((i : ℕ) → i < n → HasEnded (s' i))
finish_within zero reach small = absurd (omega arith)
finish_within {n} {s} (suc rounds) reach small = elim (all_ended n reach (omega arith)) [
  | inl over ↦ (s, stays s, over)
  | inr (s', step, less) ↦
      let (s'', run, over) = finish_within rounds (next s s' reach step) (omega arith) in
      (s'', goes s s' s'' step run, over)
]

-- From every state that the threads can reach there is a run at whose end all of them are behind their loops: they
-- never wait for each other.
pub lanes_finish :
    {n : ℕ} {s : ℕ → Lane}
    → Reach n s
    → (s' : ℕ → Lane) × Leads n s s' × ((i : ℕ) → i < n → HasEnded (s' i))
lanes_finish {n} {s} reach = finish_within (suc (total n s)) reach (omega arith)

pub Reach-Leads : {n : ℕ} {s s' : ℕ → Lane} → Reach n s → Leads n s s' → Reach n s'
Reach-Leads reach (stays s) = reach
Reach-Leads reach (goes s s' s'' step run) = Reach-Leads (next s s' reach step) run
