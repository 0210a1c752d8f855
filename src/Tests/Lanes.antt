-- ===== src/Tests/Lanes.antt =====
-- The threads of PCB/ParaPCBBUFF.cpp: two pairs, at the start, after an item, and at the end of a run.
use node2x6x2b.Base.{
  ℕ, ◌<◌, ◌≡◌, refl, arith, Option, none, some, List, [], ◌∷◌, Bool, true, false, if◌then◌else◌,
  update,
}
use node2x6x2b.Lanes.{
  iter, Place, Lane, initialize_in_out, produce_step, consume_step, Reach, starts, next, produces,
  consumes,
}
use node2x6x2b.Lanes.One.{IsQueue}
use node2x6x2b.Lanes.Whole.{Reach-IsQueue, lanes_whole}
use node2x6x2b.Lanes.Ends.{HasEnded, Leads, lanes_finish, Reach-Leads}

abbrev garbage : Lane
garbage = record {
  in_at = 77;
  out_at = 5;
  buff = λ h. 0;
  given = 3;
  taken = 9;
  items = λ k. 0;
  got = λ k. 0;
  producer = Place.end;
  consumer = Place.move;
}

abbrev at_start : ℕ → Lane
at_start = λ i. initialize_in_out garbage

start-Reach : Reach 2 at_start
start-Reach = starts (λ i. garbage)

abbrev stepped : (ℕ → Lane) → Option Lane → (ℕ → Lane)
stepped s none = s
stepped s (some l) = update s 0 l

-- Steps of pair 0, `true` for `Producer`, which draws 42.
abbrev after : List Bool → ℕ → Lane
after [] = at_start
after (who ∷ before) =
    let s = after before in
    stepped s
      (if who then produce_step 42 (s 0).producer (s 0) else consume_step (s 0).consumer (s 0))

produced :
    (s : ℕ → Lane) (o : Option Lane)
    → produce_step 42 (s 0).producer (s 0) ≡ o
    → Reach 2 s
    → Reach 2 (stepped s o)
produced s none e reach = reach
produced s (some l) e reach = next s (update s 0 l) reach (produces 0 42 l (omega arith) e refl)

consumed :
    (s : ℕ → Lane) (o : Option Lane)
    → consume_step (s 0).consumer (s 0) ≡ o
    → Reach 2 s
    → Reach 2 (stepped s o)
consumed s none e reach = reach
consumed s (some l) e reach = next s (update s 0 l) reach (consumes 0 l (omega arith) e refl)

after-Reach : (turns : List Bool) → Reach 2 (after turns)
after-Reach [] = start-Reach
after-Reach (true ∷ before) = produced (after before) _ refl (after-Reach before)
after-Reach (false ∷ before) = consumed (after before) _ refl (after-Reach before)

-- The last step comes first: an item is given and taken.
abbrev one_item : List Bool
one_item = false ∷ false ∷ false ∷ false ∷ true ∷ true ∷ true ∷ true ∷ []

one_item-got : (after one_item 0).got 0 ≡ 42
unfolding produce_step consume_step
one_item-got = refl

Reach-IsQueue_example : IsQueue (after one_item 0)
Reach-IsQueue_example = Reach-IsQueue 0 (after-Reach one_item)

lanes_finish_example :
    (s' : ℕ → Lane) × Leads 2 (after one_item) s' × ((i : ℕ) → i < 2 → HasEnded (s' i))
lanes_finish_example = lanes_finish (after-Reach one_item)

abbrev at_end : (s : ℕ → Lane) × Leads 2 (after one_item) s × ((i : ℕ) → i < 2 → HasEnded (s i))
at_end = lanes_finish (after-Reach one_item)

lanes_whole_example :
    ((at_end.0 1).given ≡ iter)
    × ((at_end.0 1).taken ≡ iter)
    × ((at_end.0 1).in_at ≡ (at_end.0 1).out_at)
    × ((k : ℕ) → k < iter → (at_end.0 1).got k ≡ (at_end.0 1).items k)
lanes_whole_example =
    lanes_whole 1 (Reach-Leads (after-Reach one_item) at_end.1) (at_end.2 1 (omega arith)).0
      (at_end.2 1 (omega arith)).1
