-- ===== src/PingPong/Tally.antt =====
-- The counts of the two threads, and that of their increments.
use node2x6x2b.Base.{
  ℕ, ◌+◌, ◌/◌, ◌%◌, ◌≤◌, ◌≡◌, ◌⊎◌, refl, ap, arith, Bool-cases, Option, none, some, ltb, ◌==◌, inl,
  inr,
}
use node2x6x2b.PingPong.{
  Place, Side, Next, side_step, Game, Reach, first_goes, second_goes, starts, next,
}

-- What a thread knows of the counter at its place.
unfoldable pub Knows : ℕ → ℕ → Place → ℕ → Type 0
Knows most turn Place.parity c = c + turn ≤ most
Knows most turn Place.load c = (c % 2 ≡ turn) × (c + turn ≤ most)
Knows most turn (Place.store v) c = (c % 2 ≡ turn) × (c + turn ≤ most) × (v ≡ c + 1)
Knows most turn Place.end c = most ≤ c
Knows most turn _ c = Unit

-- An increment that is not counted yet.
unfoldable pending : Place → ℕ
pending Place.note = 1
pending _ = 0

-- A thread has counted every second increment, but for one that is pending, and it has begun to wait at most once for
-- each of them.
record IsSide (most turn other : ℕ) (p : Place) (s : Side) (c : ℕ) : Type 0 where
  pub knows : Knows most turn p c
  pub tally : s.success + pending p ≡ (c + other) / 2
  pub waits : s.spins + s.flag ≤ s.success
  pub flag : s.flag ≤ 1

-- Both threads, and the counter is at most one past `MAX`.
record IsGame (most turn other : ℕ) (s t : Side) (c : ℕ) : Type 0 where
  pub mine : IsSide most turn other s.place s c
  pub theirs : IsSide most other turn t.place t c
  pub few : c ≤ most + 1

at_place :
    {most turn other : ℕ} {p p' : Place} (s : Side) (c : ℕ)
    → p ≡ p'
    → IsSide most turn other p s c
    → IsSide most turn other p' s c
at_place s c e f = rw (← e) f

module _ (most turn other : ℕ) (even : most % 2 ≡ 0) (two : turn + other ≡ 1) where
  -- What the other thread knows outlives an increment.
  Knows-add-one :
      (q : Place) (c : ℕ)
      → c % 2 ≡ turn
      → c + turn ≤ most
      → Knows most other q c
      → Knows most other q (c + 1)
  unfolding Knows
  Knows-add-one Place.load c its le (odd, le') = absurd (omega arith)
  Knows-add-one (Place.store v) c its le (odd, le', eq) = absurd (omega arith)
  Knows-add-one Place.loop c its le h = tt
  Knows-add-one Place.parity c its le h = omega arith
  Knows-add-one Place.note c its le h = tt
  Knows-add-one Place.spin c its le h = tt
  Knows-add-one Place.end c its le h = omega arith

  IsSide-add-one :
      (q : Place) (t : Side) (c : ℕ)
      → c % 2 ≡ turn
      → c + turn ≤ most
      → IsSide most other turn q t c
      → IsSide most other turn q t (c + 1)
  IsSide-add-one q t c its le f = record {
    knows = Knows-add-one q c its le f.knows;
    tally = omega (arith, f.tally);
    waits = f.waits;
    flag = f.flag;
  }

  abbrev After : Side → Option Next → Type 0
  After t none = Unit
  After t (some n) = IsGame most turn other n.side t n.counter

  -- A step that leaves the counter and the thread's own counts as they are.
  walks :
      (p : Place) (s t : Side) (c : ℕ)
      → IsGame most turn other s t c
      → pending s.place ≡ pending p
      → Knows most turn p c
      → IsGame most turn other (record s { place = p }) t c
  walks p s t c f same knows = record {
    mine = record {
      knows = knows;
      tally = rw (← same) f.mine.tally;
      waits = f.mine.waits;
      flag = f.mine.flag;
    };
    theirs = f.theirs;
    few = f.few;
  }

  side_step-IsGame :
      (p : Place) (s t : Side) (c : ℕ)
      → s.place ≡ p
      → IsGame most turn other s t c
      → After t (side_step most turn p s c)
  unfolding side_step Knows pending
  side_step-IsGame Place.loop s t c at f =
      let m = at_place s c at f.mine in
      elim (Bool-cases (ltb c most)) [
        | inl more ↦ rw more (walks Place.parity s t c f (ap pending at) (ground (arith, more)))
        | inr over ↦ rw over (walks Place.end s t c f (ap pending at) (ground (arith, over)))
      ]
  side_step-IsGame Place.parity s t c at f =
      let m = at_place s c at f.mine in
      elim (Bool-cases (c % 2 == turn)) [
        | inl mine ↦
            rw mine (walks Place.load s t c f (ap pending at) (ground (arith, mine), m.knows))
        | inr theirs ↦ rw theirs (walks Place.spin s t c f (ap pending at) tt)
      ]
  side_step-IsGame Place.load s t c at f =
      let m = at_place s c at f.mine in
      walks (Place.store (c + 1)) s t c f (ap pending at) (m.knows.0, m.knows.1, refl)
  side_step-IsGame (Place.store v) s t c at f =
      let m = at_place s c at f.mine in
      let (mine, le, new) = m.knows in
      rw new (record {
        mine = record {
          knows = tt;
          tally = omega (arith, m.tally);
          waits = m.waits;
          flag = m.flag;
        };
        theirs = IsSide-add-one t.place t c mine le f.theirs;
        few = omega arith;
      })
  side_step-IsGame Place.note s t c at f =
      let m = at_place s c at f.mine in
      record {
        mine = record {
          knows = tt;
          tally = omega (arith, m.tally);
          waits = omega (arith, m.waits);
          flag = omega arith;
        };
        theirs = f.theirs;
        few = f.few;
      }
  side_step-IsGame Place.spin s t c at f =
      let m = at_place s c at f.mine in
      elim (Bool-cases (s.flag == 1)) [
        | inl first ↦ rw first (record {
          mine = record {
            knows = tt;
            tally = m.tally;
            waits = ground (arith, m.waits, first);
            flag = omega arith;
          };
          theirs = f.theirs;
          few = f.few;
        })
        | inr again ↦ rw again (walks Place.loop s t c f (ap pending at) tt)
      ]
  side_step-IsGame Place.end s t c at f = tt

swapped :
    {most turn other : ℕ} {s t : Side} {c : ℕ}
    → IsGame most turn other s t c
    → IsGame most other turn t s c
swapped f = record { mine = f.theirs; theirs = f.mine; few = f.few }

-- For an even `MAX`, in every state that the threads can reach: each has counted half of the increments, but for one
-- that is pending, neither has begun to wait more often than it has incremented, and the counter is at most `MAX + 1`.
Reach-IsGame :
    (most : ℕ) {g : Game} → most % 2 ≡ 0 → Reach most g → IsGame most 0 1 g.first g.second g.counter
unfolding Knows pending
Reach-IsGame most even starts = record {
  mine = record { knows = tt; tally = refl; waits = omega arith; flag = omega arith };
  theirs = record { knows = tt; tally = refl; waits = omega arith; flag = omega arith };
  few = omega arith;
}
Reach-IsGame most even (next g g' reach (first_goes t e)) =
    let after : After most 0 1 even refl g.second (some t) = rw e at (
      side_step-IsGame most 0 1 even refl g.first.place g.first g.second g.counter refl
        (Reach-IsGame most even reach)) in
    after
Reach-IsGame most even (next g g' reach (second_goes t e)) =
    let after : After most 1 0 even refl g.first (some t) = rw e at (
      side_step-IsGame most 1 0 even refl g.second.place g.second g.first g.counter refl
        (swapped (Reach-IsGame most even reach))) in
    swapped after

-- For an even `MAX`, where both threads are done: their increments make the counter, which is `MAX` or `MAX + 1`; the
-- second thread has half of `MAX`, and neither has begun to wait more often than it has incremented.
pub game_done :
    (most : ℕ) {g : Game}
    → most % 2 ≡ 0
    → Reach most g
    → g.first.place ≡ Place.end
    → g.second.place ≡ Place.end
    → (g.first.success + g.second.success ≡ g.counter)
      × (g.second.success ≡ most / 2)
      × ((g.counter ≡ most) ⊎ (g.counter ≡ most + 1))
      × (g.first.spins ≤ g.first.success)
      × (g.second.spins ≤ g.second.success)
unfolding Knows pending
game_done most {g} even reach p q =
    let f = Reach-IsGame most even reach in
    let mine = at_place g.first g.counter p f.mine in
    let theirs = at_place g.second g.counter q f.theirs in
    let over = mine.knows in
    let few = f.few in
    let half = theirs.tally in
    (
      omega (arith, mine.tally),
      omega arith,
      ground arith,
      omega (arith, mine.waits),
      omega (arith, theirs.waits),
    )
