-- ===== src/Tests/Threads.antt =====
-- The threads of bench/ThreeFriends.c at their start and at their end.
use node2x6x2b.Base.{◌⊎◌}
use node2x6x2b.Friends.{Friends, at_start, Step, starts}
use node2x6x2b.Friends.Single.{Counter1}
use node2x6x2b.Friends.Four.{Counter2}
use node2x6x2b.Friends.Whole.{Reach-Counters}
use node2x6x2b.Friends.Ends.{IsDone, Reach_alive}
use node2x6x2b.Friends.Finish.{finish, Reach_finish}

Reach-Counters_example : Counter1 finish × Counter2 finish
Reach-Counters_example = Reach-Counters finish Reach_finish

Reach_alive_example : IsDone at_start ⊎ ((s' : Friends) × Step at_start s')
Reach_alive_example = Reach_alive at_start starts
