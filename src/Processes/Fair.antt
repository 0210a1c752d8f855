-- ===== src/Processes/Fair.antt =====
-- What the rows hold while two processes take turns, before and behind each step.
use node2x6x2b.Base.{
  ℕ, zero, suc, ◌+◌, ◌%◌, ◌≤◌, ◌<◌, ◌≡◌, ◌≢◌, ◌⊎◌, refl, arith, Bool, true, false, Bool-cases,
  Option, none, some, leb, ltb, ◌==◌, if◌then◌else◌, update, inl, inr,
}
use node2x6x2b.Processes.{Place, row, Next, process_step}

-- What a process knows at its place, with `ar[0][0]` at `c`.
unfoldable pub Knows : ℕ → ℕ → Place → ℕ → Type 0
Knows most turn (Place.clear k) c = (k < 4) × (turn ≡ 0) × (c ≡ 0)
Knows most turn Place.report c = Unit
Knows most turn Place.loop c = Unit
Knows most turn Place.parity c = c + turn ≤ most
Knows most turn (Place.load k) c = (k < 4) × (c % 2 ≡ turn) × (c + turn ≤ most)
Knows most turn (Place.store k v) c = (k < 4) × (c % 2 ≡ turn) × (c + turn ≤ most) × (v ≡ c + 1)
Knows most turn Place.end c = most ≤ c
Knows most turn Place.failed c = Unit

-- The assignments of its turn that a process has made.
unfoldable pub done : Place → ℕ
done (Place.load k) = k
done (Place.store k v) = k
done _ = 0

-- How far row `j` is ahead of row 0 behind `d` assignments.
abbrev pub past : ℕ → ℕ → ℕ
past j d = if leb j d then 1 else 0

-- A process whose turn is `turn`, at `p`, and one whose turn is `other`, at `q`: the rows are equal but for the
-- assignments of a turn that is under way.
pub record IsFair (most turn other : ℕ) (p q : Place) (ar : ℕ → ℕ) : Type 0 where
  pub mine : Knows most turn p (ar 0)
  pub theirs : Knows most other q (ar 0)
  pub few : ar 0 ≤ most + 1
  pub row_1 : ar 1 ≡ ar 0 + past 1 (done p + done q)
  pub row_2 : ar 2 ≡ ar 0 + past 2 (done p + done q)
  pub row_3 : ar 3 ≡ ar 0 + past 3 (done p + done q)

four_cases : (k : ℕ) → k < 4 → (k ≡ 0) ⊎ ((k ≡ 1) ⊎ ((k ≡ 2) ⊎ (k ≡ 3)))
four_cases zero lt = inl refl
four_cases (suc zero) lt = inr (inl refl)
four_cases (suc (suc zero)) lt = inr (inr (inl refl))
four_cases (suc (suc (suc k))) lt = inr (inr (inr (omega arith)))

module _ (most turn other : ℕ) (even : most % 2 ≡ 0) (two : turn + other ≡ 1) where
  -- While one process takes its turn, the other one does not.
  alone : (q : Place) (c : ℕ) → c % 2 ≡ turn → Knows most other q c → done q ≡ 0
  unfolding Knows done
  alone (Place.load k) c its (few, odd, le) = absurd (omega arith)
  alone (Place.store k v) c its (few, odd, le, eq) = absurd (omega arith)
  alone (Place.clear k) c its h = refl
  alone Place.report c its h = refl
  alone Place.loop c its h = refl
  alone Place.parity c its h = refl
  alone Place.end c its h = refl
  alone Place.failed c its h = refl

  -- What the other process knows outlives the turn.
  Knows-add-one :
      (q : Place) (c : ℕ)
      → c % 2 ≡ turn
      → c + turn ≤ most
      → Knows most other q c
      → Knows most other q (c + 1)
  unfolding Knows
  Knows-add-one (Place.load k) c its le (few, odd, le') = absurd (omega arith)
  Knows-add-one (Place.store k v) c its le (few, odd, le', eq) = absurd (omega arith)
  Knows-add-one (Place.clear k) c its le (few, first, none_yet) = absurd (omega arith)
  Knows-add-one Place.report c its le h = tt
  Knows-add-one Place.loop c its le h = tt
  Knows-add-one Place.parity c its le h = omega arith
  Knows-add-one Place.end c its le h = omega arith
  Knows-add-one Place.failed c its le h = tt

  abbrev pub After : Place → Option Next → Type 0
  After q none = Unit
  After q (some t) = IsFair most turn other t.place q t.ar

  -- A step between two turns.
  waits :
      (p p' q : Place) (ar : ℕ → ℕ)
      → IsFair most turn other p q ar
      → done p ≡ done p'
      → Knows most turn p' (ar 0)
      → IsFair most turn other p' q ar
  waits p p' q ar f same knows = record {
    mine = knows;
    theirs = f.theirs;
    few = f.few;
    row_1 = rw (← same) f.row_1;
    row_2 = rw (← same) f.row_2;
    row_3 = rw (← same) f.row_3;
  }

  clears :
      (k : ℕ) (q : Place) (ar : ℕ → ℕ)
      → IsFair most turn other (Place.clear k) q ar
      → IsFair most turn other (Place.clear k) q (update ar k 0)
  unfolding Knows done
  clears k q ar f =
      let (small, first, none_yet) = f.mine in
      let idle = alone q (ar 0) (omega arith) f.theirs in
      let still : update ar k 0 0 ≡ 0 = ground arith in
      record {
        mine = (small, first, still);
        theirs = rw still (rw none_yet at f.theirs);
        few = omega arith;
        row_1 = ground (arith, f.row_1);
        row_2 = ground (arith, f.row_2);
        row_3 = ground (arith, f.row_3);
      }

  -- The rows that have not been assigned are those of row 0.
  loads :
      (k d : ℕ) (ar : ℕ → ℕ)
      → k < 4
      → d ≡ 0
      → ar 1 ≡ ar 0 + past 1 (k + d)
      → ar 2 ≡ ar 0 + past 2 (k + d)
      → ar 3 ≡ ar 0 + past 3 (k + d)
      → ar (row k) + 1 ≡ ar 0 + 1
  loads k d ar small idle row_1 row_2 row_3 = elim (four_cases k small) [
    | inl a ↦ rw a (ground (arith, row_1))
    | inr (inl a) ↦ rw a (ground (arith, row_2))
    | inr (inr (inl a)) ↦ rw a (ground (arith, row_3))
    | inr (inr (inr a)) ↦ rw a refl
  ]

  stores :
      (k v : ℕ) (q : Place) (ar : ℕ → ℕ)
      → IsFair most turn other (Place.store k v) q ar
      → k ≢ 3
      → IsFair most turn other (Place.load (k + 1)) q (update ar (row k) v)
  unfolding Knows done
  stores k v q ar f more =
      let (small, mine, le, new) = f.mine in
      let idle = alone q (ar 0) mine f.theirs in
      let at : row k ≡ k + 1 = omega (arith, more) in
      let still : update ar (k + 1) v 0 ≡ ar 0 = ground arith in
      rw at (record {
        mine = rw still (omega (arith, more), mine, le);
        theirs = rw still f.theirs;
        few = rw still f.few;
        row_1 = ground (arith, f.row_1);
        row_2 = ground (arith, f.row_2);
        row_3 = ground (arith, f.row_3);
      })

  stores_last :
      (k v : ℕ) (q : Place) (ar : ℕ → ℕ)
      → IsFair most turn other (Place.store k v) q ar
      → k ≡ 3
      → IsFair most turn other Place.loop q (update ar (row k) v)
  unfolding Knows done
  stores_last k v q ar f last =
      let (small, mine, le, new) = f.mine in
      let idle = alone q (ar 0) mine f.theirs in
      let at : row k ≡ 0 = omega (arith, last) in
      rw (at, new)
        (record {
          mine = tt;
          theirs = Knows-add-one q (ar 0) mine le f.theirs;
          few = omega arith;
          row_1 = ground (arith, f.row_1);
          row_2 = ground (arith, f.row_2);
          row_3 = ground (arith, f.row_3);
        })

  pub process_step-IsFair :
      (found : Bool) (p q : Place) (ar : ℕ → ℕ)
      → IsFair most turn other p q ar
      → After q (process_step most turn found p ar)
  unfolding process_step Knows done
  process_step-IsFair found (Place.clear k) q ar f =
      let (small, first, none_yet) = f.mine in
      let cleared = clears k q ar f in
      elim (Bool-cases (k == 3)) [
        | inl last ↦ rw last (waits (Place.clear k) Place.report q (update ar k 0) cleared refl tt)
        | inr more ↦ rw more (
            waits (Place.clear k) (Place.clear (k + 1)) q (update ar k 0) cleared refl
              (ground (arith, more), first, cleared.mine.2))
      ]
  process_step-IsFair true Place.report q ar f = waits Place.report Place.loop q ar f refl tt
  process_step-IsFair false Place.report q ar f = waits Place.report Place.failed q ar f refl tt
  process_step-IsFair found Place.loop q ar f = elim (Bool-cases (ltb (ar 0) most)) [
    | inl more ↦ rw more (waits Place.loop Place.parity q ar f refl (ground (arith, more)))
    | inr over ↦ rw over (waits Place.loop Place.end q ar f refl (ground (arith, over)))
  ]
  process_step-IsFair found Place.parity q ar f = elim (Bool-cases (ar 0 % 2 == turn)) [
    | inl mine ↦
        rw mine (
          waits Place.parity (Place.load 0) q ar f refl (omega arith, ground (arith, mine), f.mine))
    | inr theirs ↦ rw theirs (waits Place.parity Place.loop q ar f refl tt)
  ]
  process_step-IsFair found (Place.load k) q ar f =
      let (small, mine, le) = f.mine in
      let idle = alone q (ar 0) mine f.theirs in
      waits (Place.load k) (Place.store k (ar (row k) + 1)) q ar f refl
        (small, mine, le, loads k (done q) ar small idle f.row_1 f.row_2 f.row_3)
  process_step-IsFair found (Place.store k v) q ar f = elim (Bool-cases (k == 3)) [
    | inl last ↦ rw last (stores_last k v q ar f (ground (arith, last)))
    | inr more ↦ rw more (stores k v q ar f (ground (arith, more)))
  ]
  process_step-IsFair found Place.end q ar f = tt
  process_step-IsFair found Place.failed q ar f = tt
