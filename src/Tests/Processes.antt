-- ===== src/Tests/Processes.antt =====
-- The processes of bench/NewProcess1.c and bench/NewProcess2.c.
use node2x6x2b.Base.{◌+◌, ℕ, ◌≡◌, ◌⊎◌, refl, arith}
use node2x6x2b.Processes.{iter, process_step, Place, Shared, at_start, Leads}
use node2x6x2b.Processes.Fair.{IsFair}
use node2x6x2b.Processes.Turns.{IsNew, HasTurn, turns_fair, turns_apart, turns_done}
use node2x6x2b.Processes.Past.{bumped, cleared, both, first_solo, tests, begins, moves, turns_past}
use node2x6x2b.Processes.Stale.{IsStuck, abandoned, stale_endless}

abbrev zeros : ℕ → ℕ
zeros j = 0

zeros-IsNew : IsNew zeros
zeros-IsNew = (refl, refl, refl, refl)

abbrev past :
    (s : Shared) × Leads 6 (at_start zeros) s
    × (s.first ≡ Place.end)
    × (s.second ≡ Place.end)
    × (s.ar 0 ≡ 7)
past = turns_past 2 zeros

turns_past_example :
    (s : Shared) × Leads iter (at_start zeros) s
    × (s.first ≡ Place.end)
    × (s.second ≡ Place.end)
    × (s.ar 0 ≡ iter + 1)
turns_past_example = turns_past 49999999 zeros

turns_fair_example : IsFair 6 0 1 past.0.first past.0.second past.0.ar
turns_fair_example = turns_fair 6 refl zeros-IsNew past.1

turns_done_example :
    (past.0.ar 1 ≡ past.0.ar 0)
    × (past.0.ar 2 ≡ past.0.ar 0)
    × (past.0.ar 3 ≡ past.0.ar 0)
    × ((past.0.ar 0 ≡ 6) ⊎ (past.0.ar 0 ≡ 7))
turns_done_example = turns_done 6 refl zeros-IsNew past.1 past.2 past.3

-- The first process is in its first turn.
abbrev in_turn : Shared
in_turn = record { ar = cleared zeros; first = Place.load 0; second = Place.loop }

in_turn-Leads : Leads 6 (at_start zeros) in_turn
unfolding process_step
in_turn-Leads =
    both (begins 6 zeros)
      (first_solo Place.loop (moves _ _ (tests 6 0 (cleared zeros) (omega arith)) refl))

turns_apart_example : ¬ HasTurn in_turn.second
unfolding HasTurn
turns_apart_example = turns_apart 6 refl zeros-IsNew in_turn-Leads tt

abbrev sevens : ℕ → ℕ
sevens j = 7

-- The first process tests the loop, and finds that it is not its turn.
stale_endless_example : Leads 6 (at_start sevens) (abandoned sevens) × IsStuck (abandoned sevens)
unfolding process_step
stale_endless_example =
    stale_endless 6 sevens (omega arith) (omega arith)
      (first_solo Place.end (moves _ _ (tests 6 0 (bumped (cleared sevens)) (omega arith)) refl))
