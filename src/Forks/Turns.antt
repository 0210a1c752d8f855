-- ===== src/Forks/Turns.antt =====
-- What holds in every state that the processes can reach.
use node2x6x2b.Base.{
  ℕ, ◌+◌, ◌/◌, ◌%◌, ◌≤◌, ◌<◌, ◌≡◌, refl, arith, Bool, Bool-cases, Option, none, some, ltb, ◌==◌,
  inl, inr,
}
use node2x6x2b.Forks.{
  Place, Next, turn_step, Forked, at_start, Leads, first_goes, second_goes, stays, goes,
}

-- What a process knows at its place.
unfoldable pub Knows : ℕ → ℕ → Place → ℕ → ℕ → Type 0
Knows most turn Place.loop c global = c ≤ most
Knows most turn Place.parity c global = c < most
Knows most turn Place.load c global = (c < most) × (global % 2 ≡ turn)
Knows most turn (Place.store v) c global = (c < most) × (global % 2 ≡ turn) × (v ≡ global + 1)
Knows most turn Place.end c global = c ≡ most

-- A process whose turn is `turn`, and one whose turn is `other`: each has every second increment.
pub record IsShared (most turn other : ℕ) (p q : Place) (c d global : ℕ) : Type 0 where
  pub mine : Knows most turn p c global
  pub theirs : Knows most other q d global
  pub mine_is : c ≡ (global + other) / 2
  pub theirs_is : d ≡ (global + turn) / 2

module _ (most turn other : ℕ) (two : turn + other ≡ 1) where
  -- What the other process knows outlives an increment.
  Knows-add-one :
      (q : Place) (d global : ℕ)
      → global % 2 ≡ turn
      → Knows most other q d global
      → Knows most other q d (global + 1)
  unfolding Knows
  Knows-add-one Place.loop d global its h = h
  Knows-add-one Place.parity d global its h = h
  Knows-add-one Place.load d global its (few, odd) = absurd (omega arith)
  Knows-add-one (Place.store v) d global its (few, odd, new) = absurd (omega arith)
  Knows-add-one Place.end d global its h = h

  abbrev After : Place → ℕ → Option Next → Type 0
  After q d none = Unit
  After q d (some t) = IsShared most turn other t.worker.place q t.worker.c d t.global

  -- A step between two increments.
  walks :
      (p p' q : Place) (c d global : ℕ)
      → IsShared most turn other p q c d global
      → Knows most turn p' c global
      → IsShared most turn other p' q c d global
  walks p p' q c d global f knows = record {
    mine = knows;
    theirs = f.theirs;
    mine_is = f.mine_is;
    theirs_is = f.theirs_is;
  }

  turn_step-IsShared :
      (p q : Place) (c d global : ℕ)
      → IsShared most turn other p q c d global
      → After q d (turn_step most turn p c global)
  unfolding turn_step Knows
  turn_step-IsShared Place.loop q c d global f = elim (Bool-cases (ltb c most)) [
    | inl more ↦ rw more (walks Place.loop Place.parity q c d global f (ground (arith, more)))
    | inr over ↦ rw over (walks Place.loop Place.end q c d global f (ground (arith, over, f.mine)))
  ]
  turn_step-IsShared Place.parity q c d global f = elim (Bool-cases (global % 2 == turn)) [
    | inl mine ↦
        rw mine (walks Place.parity Place.load q c d global f (f.mine, ground (arith, mine)))
    | inr theirs ↦ rw theirs (walks Place.parity Place.loop q c d global f (omega (arith, f.mine)))
  ]
  turn_step-IsShared Place.load q c d global f =
      walks Place.load (Place.store (global + 1)) q c d global f (f.mine.0, f.mine.1, refl)
  turn_step-IsShared (Place.store v) q c d global f =
      let (few, its, new) = f.mine in
      rw new (record {
        mine = omega arith;
        theirs = Knows-add-one q d global its f.theirs;
        mine_is = omega (arith, f.mine_is);
        theirs_is = omega (arith, f.theirs_is);
      })
  turn_step-IsShared Place.end q c d global f = tt

pub swapped :
    {most turn other : ℕ} {p q : Place} {c d global : ℕ}
    → IsShared most turn other p q c d global
    → IsShared most other turn q p d c global
swapped f = record {
  mine = f.theirs;
  theirs = f.mine;
  mine_is = f.theirs_is;
  theirs_is = f.mine_is;
}

abbrev pub IsState : ℕ → Forked → Type 0
IsState most s = IsShared most 0 1 s.first.place s.second.place s.first.c s.second.c s.global

-- In every state that the processes can reach, whether by `fork` or by `vfork`, each has every second increment, and a
-- process that stores has the turn and stores one more than there is.
pub Leads-IsState :
    {shared : Bool} (most : ℕ) {s : Forked} → Leads shared most at_start s → IsState most s
unfolding Knows
Leads-IsState most stays = record {
  mine = omega arith;
  theirs = omega arith;
  mine_is = refl;
  theirs_is = refl;
}
Leads-IsState most (goes s s' run (first_goes t e)) =
    let after : After most 0 1 refl s.second.place s.second.c (some t) = rw e at (
      turn_step-IsShared most 0 1 refl s.first.place s.second.place s.first.c s.second.c s.global
        (Leads-IsState most run)) in
    after
Leads-IsState most (goes s s' run (second_goes t free e)) =
    let after : After most 1 0 refl s.first.place s.first.c (some t) = rw e at (
      turn_step-IsShared most 1 0 refl s.second.place s.first.place s.second.c s.first.c s.global
        (swapped (Leads-IsState most run))) in
    swapped after

-- A process that is done has counted to `ITER`.
pub ended :
    {most : ℕ} (turn : ℕ) (p : Place) (c global : ℕ)
    → p ≡ Place.end
    → Knows most turn p c global
    → c ≡ most
unfolding Knows
ended turn p c global e h = rw e at h
