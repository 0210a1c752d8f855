-- ===== src/Tests/PingPong.antt =====
-- The threads of Microbench/pingPong_withoutAtomic.c, with a `MAX` of 2.
use node2x6x2b.Base.{
  ◌+◌, ◌≤◌, ◌≡◌, ◌⊎◌, refl, Option, none, some, List, [], ◌∷◌, Bool, true, false, if◌then◌else◌,
}
use node2x6x2b.PingPong.{
  Game, Next, at_start, first_step, second_step, side_step, Reach, starts, next, first_goes,
  second_goes,
}
use node2x6x2b.PingPong.Tally.{game_done}

abbrev stepped : Bool → Game → Option Next → Game
stepped who g none = g
stepped true g (some t) = record { counter = t.counter; first = t.side; second = g.second }
stepped false g (some t) = record { counter = t.counter; first = g.first; second = t.side }

-- Steps of the threads, the last one first; `true` is one of thread 0.
abbrev after : List Bool → Game
after [] = at_start
after (who ∷ before) =
    let g = after before in
    stepped who g (
      if who
      then first_step 2 g.first.place g.first g.counter
      else second_step 2 g.second.place g.second g.counter)

first_after :
    (g : Game) (o : Option Next)
    → first_step 2 g.first.place g.first g.counter ≡ o
    → Reach 2 g
    → Reach 2 (stepped true g o)
first_after g none e reach = reach
first_after g (some t) e reach = next g _ reach (first_goes t e)

second_after :
    (g : Game) (o : Option Next)
    → second_step 2 g.second.place g.second g.counter ≡ o
    → Reach 2 g
    → Reach 2 (stepped false g o)
second_after g none e reach = reach
second_after g (some t) e reach = next g _ reach (second_goes t e)

after-Reach : (turns : List Bool) → Reach 2 (after turns)
after-Reach [] = starts
after-Reach (true ∷ before) = first_after (after before) _ refl (after-Reach before)
after-Reach (false ∷ before) = second_after (after before) _ refl (after-Reach before)

-- Thread 0 tests the loop before the last turn of thread 1, so the counter ends at 3.
abbrev whole_game : List Bool
whole_game =
    true ∷ false ∷ true ∷ true ∷ true ∷ true ∷ false ∷ false ∷ false ∷ false ∷ true ∷ false ∷ true
    ∷ true ∷ true ∷ true ∷ true ∷ []

whole_game-counter : (after whole_game).counter ≡ 3
unfolding side_step
whole_game-counter = refl

game_done_example :
    ((after whole_game).first.success + (after whole_game).second.success
      ≡ (after whole_game).counter)
    × ((after whole_game).second.success ≡ 1)
    × (((after whole_game).counter ≡ 2) ⊎ ((after whole_game).counter ≡ 3))
    × ((after whole_game).first.spins ≤ (after whole_game).first.success)
    × ((after whole_game).second.spins ≤ (after whole_game).second.success)
unfolding side_step
game_done_example = game_done 2 refl (after-Reach whole_game) refl refl
