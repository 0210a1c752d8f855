-- ===== src/Lanes/Whole.antt =====
-- All pairs: what holds in every state that their threads can reach.
use node2x6x2b.Base.{
  ℕ, ◌%◌, ◌<◌, ◌≡◌, refl, sym, ap, ◌∙◌, arith, Bool-cases, some, ◌==◌, update, inl, inr,
}
use node2x6x2b.Lanes.{buff_max, iter, Place, Lane, Reach, starts, next, produces, consumes}
use node2x6x2b.Lanes.One.{Gave, Takes, IsQueue, initialize_in_out-IsQueue}
use node2x6x2b.Lanes.Steps.{After, produce_step-IsQueue, consume_step-IsQueue}

IsQueue-update :
    (s : ℕ → Lane) (i : ℕ) (l : Lane)
    → ((j : ℕ) → IsQueue (s j))
    → IsQueue l
    → (j : ℕ) → IsQueue (update s i l j)
IsQueue-update s i l each f j = elim (Bool-cases (j == i)) [
  | inl here ↦ rw here f
  | inr apart ↦ rw apart (each j)
]

-- In every state that the threads of `n` pairs can reach, each ring holds what its `Producer` has given and its
-- `Consumer` has not taken, at most 199 items, each in its slot, and what `Consumer` has got are the items of
-- `Producer`, in order: none is lost, doubled or overtaken, though neither thread takes a lock.
pub Reach-IsQueue : {n : ℕ} {s : ℕ → Lane} (i : ℕ) → Reach n s → IsQueue (s i)
Reach-IsQueue i (starts garbage) = initialize_in_out-IsQueue (garbage i)
Reach-IsQueue j (next s s' reach (produces i item l small e q)) =
    let after : After (some l) =
      rw e at (produce_step-IsQueue item (s i).producer (s i) refl (Reach-IsQueue i reach)) in
    rw (← q) (IsQueue-update s i l (λ k. Reach-IsQueue k reach) after j)
Reach-IsQueue j (next s s' reach (consumes i l small e q)) =
    let after : After (some l) =
      rw e at (consume_step-IsQueue (s i).consumer (s i) refl (Reach-IsQueue i reach)) in
    rw (← q) (IsQueue-update s i l (λ k. Reach-IsQueue k reach) after j)

-- Where both threads of a pair have left their loops, a million items have been given and taken, its ring is empty,
-- and what `Consumer` has got is, place for place, what `Producer` drew.
pub lanes_whole :
    {n : ℕ} {s : ℕ → Lane} (i : ℕ)
    → Reach n s
    → (s i).producer ≡ Place.end
    → (s i).consumer ≡ Place.end
    → ((s i).given ≡ iter)
      × ((s i).taken ≡ iter)
      × ((s i).in_at ≡ (s i).out_at)
      × ((k : ℕ) → k < iter → (s i).got k ≡ (s i).items k)
unfolding Gave Takes
lanes_whole {n} {s} i reach p q =
    let f = Reach-IsQueue i reach in
    let gave : (s i).given ≡ iter = rw p at f.producer in
    let takes : (s i).taken ≡ iter = rw q at f.consumer in
    (
      gave,
      takes,
      f.in_is ∙ ap (λ (t : ℕ). t % buff_max) (gave ∙ sym takes) ∙ sym f.out_is,
      λ k lt. f.right k (omega (arith, takes)),
    )
