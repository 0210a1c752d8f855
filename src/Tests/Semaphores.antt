-- ===== src/Tests/Semaphores.antt =====
-- The threads of Microbench/ProducerConsumerNewSemaphore.c after an item, and at the end of a run.
use node2x6x2b.Base.{
  ℕ, ◌<◌, ◌≡◌, refl, Option, none, some, List, [], ◌∷◌, Bool, true, false, if◌then◌else◌,
}
use node2x6x2b.Semaphores.{
  Store, at_start, produce_step, consume_step, Reach, starts, next, produces, consumes,
}
use node2x6x2b.Semaphores.Places.{IsStore}
use node2x6x2b.Semaphores.Whole.{Reach-IsStore}
use node2x6x2b.Semaphores.Ends.{HasEnded, Leads, store_finish}

abbrev stepped : Store → Option Store → Store
stepped s none = s
stepped s (some t) = t

-- Steps of the threads, the last one first; `true` is one of `Producer`, which draws 42.
abbrev after : List Bool → Store
after [] = at_start (λ h. 0) (λ k. 0) (λ k. 0)
after (who ∷ before) =
    let s = after before in
    stepped s (if who then produce_step 42 s.producer s else consume_step s.consumer s)

produced :
    (s : Store) (o : Option Store)
    → produce_step 42 s.producer s ≡ o
    → Reach s
    → Reach (stepped s o)
produced s none e reach = reach
produced s (some t) e reach = next s t reach (produces 42 e)

consumed :
    (s : Store) (o : Option Store) → consume_step s.consumer s ≡ o → Reach s → Reach (stepped s o)
consumed s none e reach = reach
consumed s (some t) e reach = next s t reach (consumes e)

after-Reach : (turns : List Bool) → Reach (after turns)
after-Reach [] = starts (λ h. 0) (λ k. 0) (λ k. 0)
after-Reach (true ∷ before) = produced (after before) _ refl (after-Reach before)
after-Reach (false ∷ before) = consumed (after before) _ refl (after-Reach before)

-- `Producer` posts its first item, and `Consumer` reads it.
abbrev one_item : List Bool
one_item = false ∷ false ∷ false ∷ true ∷ true ∷ true ∷ true ∷ true ∷ true ∷ []

one_item-got : (after one_item).got 0 ≡ 42
unfolding produce_step consume_step
one_item-got = refl

Reach-IsStore_example : IsStore (after one_item).producer (after one_item).consumer (after one_item)
Reach-IsStore_example = Reach-IsStore (after one_item) (after-Reach one_item)

store_finish_example :
    (s' : Store) × Leads (after one_item) s'
    × HasEnded s'
    × (s'.in_at ≡ 100001)
    × (s'.out_at ≡ 100001)
    × ((k : ℕ) → k < 100001 → s'.got k ≡ s'.items k)
store_finish_example = store_finish (after-Reach one_item)
