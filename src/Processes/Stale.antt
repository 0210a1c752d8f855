-- ===== src/Processes/Stale.antt =====
-- A segment that an earlier run has left behind, with `ar[0][0]` at `ITER` or more.
use node2x6x2b.Base.{ℕ, ◌≤◌, ◌≡◌, refl, arith, Bool, true, Option, none, some, ltb}
use node2x6x2b.Processes.{
  Place, Next, process_step, first_step, Shared, at_start, Leads, first_goes, second_goes, stays,
  goes,
}
use node2x6x2b.Processes.Past.{
  rests, moves, both, first_solo, second_solo, tests, ends, chained, turn_taken, clears, bumped,
  cleared,
}

-- A process that tests for its turn.
unfoldable pub IsIdle : Place → Type 0
IsIdle Place.loop = Unit
IsIdle Place.parity = Unit
IsIdle _ = ⊥

-- The second process has left, and the first one waits for it to take a turn.
pub record IsStuck (s : Shared) : Type 0 where
  pub idle : IsIdle s.first
  pub left : s.second ≡ Place.end
  pub one : s.ar 0 ≡ 1

abbrev StillIdle : Option Next → Type 0
StillIdle none = Unit
StillIdle (some t) = IsIdle t.place × (t.ar 0 ≡ 1)

first_step-StillIdle :
    (most : ℕ) (found : Bool) (p : Place) (ar : ℕ → ℕ)
    → 2 ≤ most
    → IsIdle p
    → ar 0 ≡ 1
    → StillIdle (first_step most found p ar)
unfolding process_step IsIdle
first_step-StillIdle most found Place.loop ar two idle one =
    let below : ltb (ar 0) most ≡ true = ground arith in rw below (tt, one)
first_step-StillIdle most found Place.parity ar two idle one = rw one (tt, refl)
first_step-StillIdle most found (Place.clear k) ar two idle one = absurd idle
first_step-StillIdle most found Place.report ar two idle one = absurd idle
first_step-StillIdle most found (Place.load k) ar two idle one = absurd idle
first_step-StillIdle most found (Place.store k v) ar two idle one = absurd idle
first_step-StillIdle most found Place.end ar two idle one = absurd idle
first_step-StillIdle most found Place.failed ar two idle one = absurd idle

Leads-IsStuck : {most : ℕ} {s s' : Shared} → 2 ≤ most → IsStuck s → Leads most s s' → IsStuck s'
unfolding process_step
Leads-IsStuck two stuck stays = stuck
Leads-IsStuck {most} two stuck (goes s s' run (first_goes found t e)) =
    let before = Leads-IsStuck two stuck run in
    let after : StillIdle (some t) =
      rw e at (first_step-StillIdle most found s.first s.ar two before.idle before.one) in
    record { idle = after.0; left = before.left; one = after.1 }
Leads-IsStuck {most} two stuck (goes s s' run (second_goes found t e)) =
    let before = Leads-IsStuck two stuck run in absurd (none-some (rw before.left at e))
  where
    none-some : {t : Next} → (none ≡ some t) → ⊥
    none-some e = ground arith

-- The second process has left before the first one has cleared the rows and taken its first turn.
abbrev pub abandoned : (ℕ → ℕ) → Shared
abandoned ar = record { ar = bumped (cleared ar); first = Place.loop; second = Place.end }

-- For an `ITER` of 2 or more: if the segment comes from an earlier run, with `ar[0][0]` at `ITER` or more, the
-- processes can reach a state where the second one has left and the first one has counted to 1, and in every state
-- that they can reach from there the first one still waits for its turn: it never ends.
pub stale_endless :
    (most : ℕ) (ar : ℕ → ℕ) {s : Shared}
    → 2 ≤ most
    → most ≤ ar 0
    → Leads most (abandoned ar) s
    → Leads most (at_start ar) (abandoned ar) × IsStuck s
unfolding process_step IsIdle
stale_endless most ar two old run = (
  both (second_solo (Place.clear 0) (chained (moves _ _ rests refl) (ends most 1 ar old))) (
      first_solo Place.end (
        chained (clears most 0 ar) (
          chained (tests most 0 (cleared ar) (omega arith))
            (turn_taken most 0 (cleared ar) refl)))),
  Leads-IsStuck two (record { idle = tt; left = refl; one = refl }) run,
)
