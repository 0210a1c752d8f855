-- ===== src/Semaphores/Ends.antt =====
-- The steps that the threads have left, and their runs.
use node2x6x2b.Base.{
  ℕ, zero, suc, ◌+◌, ◌-◌, ◌*◌, ◌≤◌, ◌<◌, ◌≡◌, ◌⊎◌, refl, arith, false, Bool-cases, Option, none,
  some, leb, ◌==◌, inl, inr,
}
use node2x6x2b.Semaphores.{
  Place, Store, behind_test, produce_step, consume_step, Step, Reach, produces, consumes, next,
}
use node2x6x2b.Semaphores.Places.{holds, waited, moved, posted, Counts, Numbers, IsStore}
use node2x6x2b.Semaphores.Whole.{Reach-IsStore, store_done}

-- The steps that a thread has left at most, with `count` at `c`.
unfoldable pub steps_left : Place → ℕ → ℕ
steps_left Place.wait c = (100001 - c) * 7
steps_left Place.lock c = (100001 - c) * 7 - 1
steps_left Place.access c = (100001 - c) * 7 - 2
steps_left Place.move c = (100001 - c) * 7 - 3
steps_left Place.unlock c = (100001 - c) * 7 - 4
steps_left Place.post c = (100001 - c) * 7 - 5
steps_left Place.test c = (100001 - c) * 7 - 6
steps_left Place.end c = 0

abbrev pub work : Store → ℕ
work s = steps_left s.producer s.given + steps_left s.consumer s.taken

abbrev Less : ℕ → Option Store → Type 0
Less n none = Unit
Less n (some s) = work s < n

-- Both threads are behind their loops.
abbrev pub HasEnded : Store → Type 0
HasEnded s = (s.producer ≡ Place.end) × (s.consumer ≡ Place.end)

-- The steps that are left behind `count++` and the test.
test_left : (c : ℕ) → c ≤ 100000 → steps_left (behind_test c) (c + 1) < (100001 - c) * 7 - 6
unfolding steps_left
test_left c le = elim (Bool-cases (leb (c + 1) 100000)) [
  | inl more ↦ rw more (ground (arith, more))
  | inr over ↦ rw over (omega arith)
]

produce_step-Less :
    (item : ℕ) (p : Place) (s : Store)
    → s.producer ≡ p
    → Counts p s.given
    → Less (work s) (produce_step item p s)
unfolding produce_step steps_left Counts
produce_step-Less item Place.wait s at few = rw at (elim (Bool-cases (s.empty == 0)) [
  | inl stuck ↦ rw stuck tt
  | inr free ↦ rw free (omega arith)
])
produce_step-Less item Place.lock s at few = rw at (elim (Bool-cases (s.mutex == 0)) [
  | inl stuck ↦ rw stuck tt
  | inr free ↦ rw free (omega arith)
])
produce_step-Less item Place.access s at few = rw at (omega arith)
produce_step-Less item Place.move s at few = rw at (omega arith)
produce_step-Less item Place.unlock s at few = rw at (omega arith)
produce_step-Less item Place.post s at few = rw at (omega arith)
produce_step-Less item Place.test s at few = rw at (omega (arith, test_left s.given few))
produce_step-Less item Place.end s at few = tt

consume_step-Less :
    (q : Place) (s : Store) → s.consumer ≡ q → Counts q s.taken → Less (work s) (consume_step q s)
unfolding consume_step steps_left Counts
consume_step-Less Place.wait s at few =
    rw at (elim (Bool-cases (s.full == 0)) [
      | inl stuck ↦ rw stuck tt
      | inr free ↦ rw free (omega arith)
    ])
consume_step-Less Place.lock s at few = rw at (elim (Bool-cases (s.mutex == 0)) [
  | inl stuck ↦ rw stuck tt
  | inr free ↦ rw free (omega arith)
])
consume_step-Less Place.access s at few = rw at (omega arith)
consume_step-Less Place.move s at few = rw at (omega arith)
consume_step-Less Place.unlock s at few = rw at (omega arith)
consume_step-Less Place.post s at few = rw at (omega arith)
consume_step-Less Place.test s at few = rw at (omega (arith, test_left s.taken few))
consume_step-Less Place.end s at few = tt

-- Every step takes at least one from the steps that the threads have left, 1,400,014 at the start.
work_falls : {s s' : Store} → Reach s → Step s s' → work s' < work s
work_falls {s} reach (produces item e) =
    rw e at (produce_step-Less item s.producer s refl (Reach-IsStore s reach).rounds)
work_falls {s} reach (consumes e) =
    rw e at (consume_step-Less s.consumer s refl (Reach-IsStore s reach).rounds_taken)

-- One of the threads has a step.
abbrev CanStep : Place → Place → Store → Type 0
CanStep p q s =
    ((t : Store) × (produce_step 0 p s ≡ some t)) ⊎ ((t : Store) × (consume_step q s ≡ some t))

produce_locks : (q : Place) (s : Store) → s.mutex ≡ 1 → CanStep Place.lock q s
unfolding produce_step
produce_locks q s free =
    let unlocked : (s.mutex == 0) ≡ false = ground arith in
    inl (record s { mutex = s.mutex - 1; producer = Place.access }, rw unlocked)

consume_locks : (p : Place) (s : Store) → s.mutex ≡ 1 → CanStep p Place.lock s
unfolding consume_step
consume_locks p s free =
    let unlocked : (s.mutex == 0) ≡ false = ground arith in
    inr (record s { mutex = s.mutex - 1; consumer = Place.access }, rw unlocked)

produce_waits : (q : Place) (s : Store) → 0 < s.empty → CanStep Place.wait q s
unfolding produce_step
produce_waits q s room =
    let ready : (s.empty == 0) ≡ false = ground arith in
    inl (record s { empty = s.empty - 1; producer = Place.lock }, rw ready)

consume_waits : (p : Place) (s : Store) → 0 < s.full → CanStep p Place.wait s
unfolding consume_step
consume_waits p s some_left =
    let ready : (s.full == 0) ≡ false = ground arith in
    inr (record s { full = s.full - 1; consumer = Place.lock }, rw ready)

can_step :
    (p q : Place) (s : Store) → IsStore p q s → ((p ≡ Place.end) × (q ≡ Place.end)) ⊎ CanStep p q s
unfolding produce_step consume_step Numbers Counts holds waited moved posted
can_step Place.access q s f = inr (inl (_, refl))
can_step Place.move q s f = inr (inl (_, refl))
can_step Place.unlock q s f = inr (inl (_, refl))
can_step Place.post q s f = inr (inl (_, refl))
can_step Place.test q s f = inr (inl (_, refl))
can_step p Place.access s f = inr (inr (_, refl))
can_step p Place.move s f = inr (inr (_, refl))
can_step p Place.unlock s f = inr (inr (_, refl))
can_step p Place.post s f = inr (inr (_, refl))
can_step p Place.test s f = inr (inr (_, refl))
can_step Place.lock q s f = inr (produce_locks q s (omega (arith, f.numbers.0)))
can_step p Place.lock s f = inr (consume_locks p s (omega (arith, f.numbers.0)))
can_step Place.wait Place.wait s f =
    inr (produce_waits Place.wait s (omega (arith, f.numbers.1, f.numbers.2, f.rounds)))
can_step Place.wait Place.end s f =
    inr (
      produce_waits Place.end s (omega (arith, f.numbers.1, f.numbers.2, f.rounds, f.rounds_taken)))
can_step Place.end Place.wait s f =
    inr (consume_waits Place.end s (omega (arith, f.numbers.2, f.rounds, f.rounds_taken)))
can_step Place.end Place.end s f = inl (refl, refl)

-- In every state that the threads can reach, both are done, or one of them has a step.
store_go_on : {s : Store} → Reach s → HasEnded s ⊎ ((s' : Store) × Step s s')
store_go_on {s} reach = elim (can_step s.producer s.consumer s (Reach-IsStore s reach)) [
  | inl over ↦ inl over
  | inr (inl (t, e)) ↦ inr (t, produces 0 e)
  | inr (inr (t, e)) ↦ inr (t, consumes e)
]

-- A run of the threads.
pub data Leads : Store → Store → Type 0 where
  stays : (s : Store) → Leads s s
  goes : (s s' s'' : Store) → Step s s' → Leads s' s'' → Leads s s''

Reach-Leads : {s s' : Store} → Reach s → Leads s s' → Reach s'
Reach-Leads reach (stays s) = reach
Reach-Leads reach (goes s s' s'' step run) = Reach-Leads (next s s' reach step) run

finish_within :
    {s : Store} (rounds : ℕ) → Reach s → work s < rounds → (s' : Store) × Leads s s' × HasEnded s'
finish_within zero reach small = absurd (omega arith)
finish_within {s} (suc rounds) reach small = elim (store_go_on reach) [
  | inl over ↦ (s, stays s, over)
  | inr (s', step) ↦
      let less = work_falls reach step in
      let (s'', run, over) = finish_within rounds (next s s' reach step) (omega arith) in
      (s'', goes s s' s'' step run, over)
]

-- From every state that the threads can reach there is a run at whose end both are done, 100,001 items have gone
-- through the buffer, and what `Consumer` has got is, place for place, what `Producer` drew.
pub store_finish :
    {s : Store}
    → Reach s
    → (s' : Store) × Leads s s'
      × HasEnded s'
      × (s'.in_at ≡ 100001)
      × (s'.out_at ≡ 100001)
      × ((k : ℕ) → k < 100001 → s'.got k ≡ s'.items k)
store_finish {s} reach =
    let (s', run, over) = finish_within (suc (work s)) reach (omega arith) in
    let (all_in, all_out, none_left, room, free, same) =
      store_done s' (Reach-Leads reach run) over.0 over.1 in
    (s', run, over, all_in, all_out, same)
