-- ===== src/Tests/Forks.antt =====
-- The processes of Microbench/sharedMemory.c and of Microbench/sharedMemory2.c, with an `ITER` of 5.
use node2x6x2b.Base.{◌*◌, ◌≤◌, ◌≡◌, ◌≢◌, refl, arith, true, false}
use node2x6x2b.Forks.{Place, Forked, at_start, Leads, turn_step, first_goes, goes, stays}
use node2x6x2b.Forks.Finish.{HasEnded, forks_finish, forks_done}
use node2x6x2b.Forks.Vfork.{vfork_endless}

forks_finish_example : (s : Forked) × Leads false 5 at_start s × HasEnded s
forks_finish_example = forks_finish 5 stays

abbrev at_end : (s : Forked) × Leads false 5 at_start s × HasEnded s
at_end = forks_finish 5 stays

forks_done_example : (at_end.0.first.c ≡ 5) × (at_end.0.second.c ≡ 5) × (at_end.0.global ≡ 5 * 2)
forks_done_example = forks_done 5 at_end.1 at_end.2

-- The child has tested its loop and its turn.
abbrev child_tests : Forked
child_tests = record at_start { first = record { place = Place.load; c = 0 } }

child_tests-Leads : Leads true 5 at_start child_tests
unfolding turn_step
child_tests-Leads = goes _ _ (goes _ _ stays (first_goes _ refl)) (first_goes _ refl)

vfork_endless_example :
    (child_tests.second.place ≡ Place.loop)
    × (child_tests.second.c ≡ 0)
    × (child_tests.global ≤ 1)
    × (child_tests.first.place ≢ Place.end)
vfork_endless_example = vfork_endless 5 (omega arith) child_tests-Leads
