-- ===== src/Processes/Turns.antt =====
-- Two processes on a new segment: every state that they can reach, and their end.
use node2x6x2b.Base.{ℕ, ◌+◌, ◌%◌, ◌≡◌, ◌⊎◌, refl, arith, some}
use native.Mathlib.Nat.{add_comm}
use node2x6x2b.Processes.{Place, Shared, at_start, Leads, first_goes, second_goes, stays, goes}
use node2x6x2b.Processes.Fair.{Knows, done, IsFair, After, process_step-IsFair}

swapped :
    {most turn other : ℕ} {p q : Place} {ar : ℕ → ℕ}
    → IsFair most turn other p q ar
    → IsFair most other turn q p ar
swapped {most} {turn} {other} {p} {q} f = record {
  mine = f.theirs;
  theirs = f.mine;
  few = f.few;
  row_1 = rw (add_comm (done q) (done p)) f.row_1;
  row_2 = rw (add_comm (done q) (done p)) f.row_2;
  row_3 = rw (add_comm (done q) (done p)) f.row_3;
}

-- A segment that `shmget` has just made.
abbrev pub IsNew : (ℕ → ℕ) → Type 0
IsNew ar = (ar 0 ≡ 0) × (ar 1 ≡ 0) × (ar 2 ≡ 0) × (ar 3 ≡ 0)

-- On a new segment and for an even `ITER`, in every state that the processes can reach: the rows are equal but for the
-- assignments of the one turn that is under way, `ar[0][0]` is at most `ITER + 1`, a process in its turn has the
-- remainder of `ar[0][0]` that it waits for, and what it stores is one more than `ar[0][0]`.
pub turns_fair :
    (most : ℕ) {ar : ℕ → ℕ} {s : Shared}
    → most % 2 ≡ 0
    → IsNew ar
    → Leads most (at_start ar) s
    → IsFair most 0 1 s.first s.second s.ar
unfolding Knows done
turns_fair most even (a, b, c, d) stays = record {
  mine = (omega arith, refl, a);
  theirs = tt;
  few = omega arith;
  row_1 = omega arith;
  row_2 = omega arith;
  row_3 = omega arith;
}
turns_fair most even new (goes s' s'' run (first_goes found t e)) =
    let after : After most 0 1 even refl s'.second (some t) = rw e at (
      process_step-IsFair most 0 1 even refl found s'.first s'.second s'.ar
        (turns_fair most even new run)) in
    after
turns_fair most even new (goes s' s'' run (second_goes found t e)) =
    let after : After most 1 0 even refl s'.first (some t) = rw e at (
      process_step-IsFair most 1 0 even refl found s'.second s'.first s'.ar
        (swapped (turns_fair most even new run))) in
    swapped after

-- A process in its turn.
unfoldable pub HasTurn : Place → Type 0
HasTurn (Place.load k) = Unit
HasTurn (Place.store k v) = Unit
HasTurn _ = ⊥

HasTurn-turn : (most turn : ℕ) (p : Place) (c : ℕ) → HasTurn p → Knows most turn p c → c % 2 ≡ turn
unfolding HasTurn Knows
HasTurn-turn most turn (Place.load k) c at h = h.1
HasTurn-turn most turn (Place.store k v) c at h = h.1
HasTurn-turn most turn (Place.clear k) c at h = absurd at
HasTurn-turn most turn Place.report c at h = absurd at
HasTurn-turn most turn Place.loop c at h = absurd at
HasTurn-turn most turn Place.parity c at h = absurd at
HasTurn-turn most turn Place.end c at h = absurd at
HasTurn-turn most turn Place.failed c at h = absurd at

-- On a new segment and for an even `ITER`, the processes are never both between a test for the turn and the end of
-- the assignments, though they take no lock.
pub turns_apart :
    (most : ℕ) {ar : ℕ → ℕ} {s : Shared}
    → most % 2 ≡ 0
    → IsNew ar
    → Leads most (at_start ar) s
    → HasTurn s.first
    → ¬ HasTurn s.second
turns_apart most {ar} {s} even new run first = λ second.
    let f = turns_fair most even new run in
    let zeroth = HasTurn-turn most 0 s.first (s.ar 0) first f.mine in
    let oneth = HasTurn-turn most 1 s.second (s.ar 0) second f.theirs in omega arith

-- On a new segment and for an even `ITER`, where both processes are behind their loops, the four rows are equal, and
-- they are `ITER` or `ITER + 1`.
pub turns_done :
    (most : ℕ) {ar : ℕ → ℕ} {s : Shared}
    → most % 2 ≡ 0
    → IsNew ar
    → Leads most (at_start ar) s
    → s.first ≡ Place.end
    → s.second ≡ Place.end
    → (s.ar 1 ≡ s.ar 0)
      × (s.ar 2 ≡ s.ar 0)
      × (s.ar 3 ≡ s.ar 0)
      × ((s.ar 0 ≡ most) ⊎ (s.ar 0 ≡ most + 1))
unfolding Knows done
turns_done most {ar} {s} even new run p q =
    let f = at_places s p q (turns_fair most even new run) in
    let reached = f.mine in
    let few = f.few in
    (omega (arith, f.row_1), omega (arith, f.row_2), omega (arith, f.row_3), ground arith)
  where
    at_places :
        {p q p' q' : Place} (s : Shared)
        → p ≡ p'
        → q ≡ q'
        → IsFair most 0 1 p q s.ar
        → IsFair most 0 1 p' q' s.ar
    at_places s e e' f = rw (← e, ← e') f
