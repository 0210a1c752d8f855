-- ===== src/Forks/Vfork.antt =====
-- Microbench/sharedMemory2.c: the states of a child of `vfork` and its parent.
use node2x6x2b.Base.{ℕ, ◌+◌, ◌/◌, ◌≤◌, ◌≡◌, ◌≢◌, refl, arith, true, inl, inr}
use node2x6x2b.Forks.{Place, Forked, at_start, Leads, first_goes, second_goes, stays, goes}
use node2x6x2b.Forks.Turns.{IsState, Leads-IsState, ended}

first_waits :
    (most : ℕ) (s : Forked)
    → 2 ≤ most
    → IsState most s
    → s.second.c ≡ 0
    → (s.global ≤ 1) × (s.first.place ≢ Place.end)
first_waits most s two f idle =
    let alone : 0 ≡ (s.global + 0) / 2 = rw idle at f.theirs_is in
    (
      omega arith,
      λ over. omega (arith, ended 0 s.first.place s.first.c s.global over f.mine, f.mine_is),
    )

-- With `vfork` and an `ITER` of 2 or more, whatever the order of the steps: the parent has done nothing, the child has
-- incremented once at most, and it is not done, so the program never ends.
pub vfork_endless :
    (most : ℕ) {s : Forked}
    → 2 ≤ most
    → Leads true most at_start s
    → (s.second.place ≡ Place.loop)
      × (s.second.c ≡ 0)
      × (s.global ≤ 1)
      × (s.first.place ≢ Place.end)
vfork_endless most two stays =
    let (few, before) =
      first_waits most at_start two (Leads-IsState {shared = true} most stays) refl in
    (refl, refl, few, before)
vfork_endless most {s} two (goes s' s'' run (first_goes t e)) =
    let (still, idle, few, before) = vfork_endless most two run in
    let (little, after) =
      first_waits most s two (Leads-IsState most (goes s' s run (first_goes t e))) idle in
    (still, idle, little, after)
vfork_endless most {s} two (goes s' s'' run (second_goes t (inl free) e)) = ground (arith, free)
vfork_endless most {s} two (goes s' s'' run (second_goes t (inr over) e)) =
    absurd ((vfork_endless most two run).3 over)
