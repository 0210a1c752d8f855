-- ===== src/Forks/Finish.antt =====
-- Microbench/sharedMemory.c: the runs of two processes that `fork` has made, and their end.
use node2x6x2b.Base.{
  ℕ, zero, suc, ◌+◌, ◌*◌, ◌%◌, ◌≤◌, ◌<◌, ◌≡◌, refl, arith, true, false, some, ltb, ◌==◌, inl,
}
use native.Mathlib.Decide.{dec_lt}
use node2x6x2b.Forks.{
  Place, Worker, Next, turn_step, Forked, at_start, Leads, first_goes, second_goes, stays, goes,
}
use node2x6x2b.Forks.Turns.{Knows, IsState, Leads-IsState, ended}

-- Steps of one process.
data Solo (most turn : ℕ) (t : Next) : Next → Type 0 where
  rests : Solo most turn t t
  moves :
      (t' t'' : Next)
      → Solo most turn t t'
      → turn_step most turn t'.worker.place t'.worker.c t'.global ≡ some t''
      → Solo most turn t t''

chained :
    {most turn : ℕ} {t t' t'' : Next}
    → Solo most turn t t'
    → Solo most turn t' t''
    → Solo most turn t t''
chained run rests = run
chained run (moves u u' more e) = moves u u' (chained run more) e

both :
    {most : ℕ} {s s' s'' : Forked}
    → Leads false most s s'
    → Leads false most s' s''
    → Leads false most s s''
both run stays = run
both run (goes t t' more step) = goes t t' (both run more) step

first_solo :
    {most : ℕ} {t t' : Next} (w : Worker)
    → Solo most 0 t t'
    → Leads false most
        (record { global = t.global; first = t.worker; second = w })
        (record { global = t'.global; first = t'.worker; second = w })
first_solo w rests = stays
first_solo w (moves t' t'' run e) = goes _ _ (first_solo w run) (first_goes t'' e)

second_solo :
    {most : ℕ} {t t' : Next} (w : Worker)
    → Solo most 1 t t'
    → Leads false most
        (record { global = t.global; first = w; second = t.worker })
        (record { global = t'.global; first = w; second = t'.worker })
second_solo w rests = stays
second_solo w (moves t' t'' run e) = goes _ _ (second_solo w run) (second_goes t'' (inl refl) e)

abbrev at : Place → ℕ → ℕ → Next
at p c global = record { global = global; worker = record { place = p; c = c } }

module _ (most turn c global : ℕ) where
  stored :
      (v : ℕ)
      → v ≡ global + 1
      → Solo most turn (at (Place.store v) c global) (at Place.loop (c + 1) (global + 1))
  unfolding turn_step
  stored v new = rw new (moves _ _ rests refl)

  loaded : Solo most turn (at Place.load c global) (at Place.loop (c + 1) (global + 1))
  unfolding turn_step
  loaded = chained (moves _ _ rests refl) (stored (global + 1) refl)

  tested :
      global % 2 ≡ turn
      → Solo most turn (at Place.parity c global) (at Place.loop (c + 1) (global + 1))
  unfolding turn_step
  tested its =
      let mine : (global % 2 == turn) ≡ true = ground (arith, its) in
      let loads : Solo most turn (at Place.parity c global) (at Place.load c global) =
        moves _ _ rests (rw mine) in
      chained loads loaded

  -- A process whose turn it is, and that is not done, increments.
  takes_turn :
      (p : Place)
      → Knows most turn p c global
      → c < most
      → global % 2 ≡ turn
      → Solo most turn (at p c global) (at Place.loop (c + 1) (global + 1))
  unfolding turn_step Knows
  takes_turn Place.loop knows more its =
      let below : ltb c most ≡ true = ground (arith, more) in
      let tests : Solo most turn (at Place.loop c global) (at Place.parity c global) =
        moves _ _ rests (rw below) in
      chained tests (tested its)
  takes_turn Place.parity knows more its = tested its
  takes_turn Place.load knows more its = loaded
  takes_turn (Place.store v) knows more its = stored v knows.2
  takes_turn Place.end knows more its = absurd (omega arith)

  -- A process that has counted to `ITER` leaves.
  leaves :
      (p : Place)
      → Knows most turn p c global
      → most ≤ c
      → Solo most turn (at p c global) (at Place.end c global)
  unfolding turn_step Knows
  leaves Place.loop knows over =
      let above : ltb c most ≡ false = ground (arith, over) in moves _ _ rests (rw above)
  leaves Place.parity knows over = absurd (omega arith)
  leaves Place.load knows over = absurd (omega (arith, knows.0))
  leaves (Place.store v) knows over = absurd (omega (arith, knows.0))
  leaves Place.end knows over = rests

-- Both processes are behind their loops.
abbrev pub HasEnded : Forked → Type 0
HasEnded s = (s.first.place ≡ Place.end) × (s.second.place ≡ Place.end)

-- The next increment, by the process whose turn it is.
next_turn :
    (most : ℕ) (s : Forked)
    → IsState most s
    → s.global < most * 2
    → (s' : Forked) × Leads false most s s' × (s'.global ≡ s.global + 1)
next_turn most s f more = elim (dec_lt (s.global % 2) 1) [
  | yes even ↦ (
    record {
      global = s.global + 1;
      first = record { place = Place.loop; c = s.first.c + 1 };
      second = s.second;
    },
    first_solo s.second (
        takes_turn most 0 s.first.c s.global s.first.place f.mine (omega (arith, f.mine_is))
          (omega arith)),
    refl,
  )
  | no odd ↦ (
    record {
      global = s.global + 1;
      first = s.first;
      second = record { place = Place.loop; c = s.second.c + 1 };
    },
    second_solo s.first (
        takes_turn most 1 s.second.c s.global s.second.place f.theirs (omega (arith, f.theirs_is))
          (omega arith)),
    refl,
  )
]

last_steps :
    (most : ℕ) (s : Forked)
    → IsState most s
    → most * 2 ≤ s.global
    → (s' : Forked) × Leads false most s s' × HasEnded s'
last_steps most s f over = (
  record {
    global = s.global;
    first = record { place = Place.end; c = s.first.c };
    second = record { place = Place.end; c = s.second.c };
  },
  both
      (first_solo s.second
        (leaves most 0 s.first.c s.global s.first.place f.mine (omega (arith, f.mine_is))))
      (second_solo (record { place = Place.end; c = s.first.c })
        (leaves most 1 s.second.c s.global s.second.place f.theirs (omega (arith, f.theirs_is)))),
  (refl, refl),
)

finish_within :
    (most rounds : ℕ) (s : Forked)
    → Leads false most at_start s
    → most * 2 ≤ s.global + rounds
    → (s' : Forked) × Leads false most s s' × HasEnded s'
finish_within most zero s run reached = last_steps most s (Leads-IsState most run) (omega arith)
finish_within most (suc rounds) s run reached = elim (dec_lt s.global (most * 2)) [
  | yes more ↦
      let (s', turn, one_more) = next_turn most s (Leads-IsState most run) more in
      let (s'', rest, over) =
        finish_within most rounds s' (both run turn) (omega (arith, one_more)) in
      (s'', both turn rest, over)
  | no over ↦ last_steps most s (Leads-IsState most run) (omega arith)
]

-- With `fork`, from every state that the processes can reach, there is a run at whose end both are behind their loops.
pub forks_finish :
    (most : ℕ) {s : Forked}
    → Leads false most at_start s
    → (s' : Forked) × Leads false most s s' × HasEnded s'
forks_finish most {s} run = finish_within most (most * 2) s run (omega arith)

-- Where both processes are behind their loops, each has incremented `ITER` times, and `global_var[0]` is twice that: no
-- increment is lost, and none is too many.
pub forks_done :
    (most : ℕ) {s : Forked}
    → Leads false most at_start s
    → HasEnded s
    → (s.first.c ≡ most) × (s.second.c ≡ most) × (s.global ≡ most * 2)
forks_done most {s} run over =
    let f = Leads-IsState most run in
    let mine = ended 0 s.first.place s.first.c s.global over.0 f.mine in
    let theirs = ended 1 s.second.place s.second.c s.global over.1 f.theirs in
    (mine, theirs, omega (arith, f.mine_is, f.theirs_is))
