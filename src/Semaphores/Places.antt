-- ===== src/Semaphores/Places.antt =====
-- What each thread has done of its round at each place, and what the semaphores and the buffer then hold.
use node2x6x2b.Base.{ℕ, ◌+◌, ◌≤◌, ◌<◌, ◌≡◌, arith}
use node2x6x2b.Semaphores.{buffer_max, Place, Store}

-- What a thread has done of its round: whether it holds `mutex`, has come past its first `sem_wait`, has accessed
-- `buffer`, has moved its index, and has posted.
unfoldable pub holds : Place → ℕ
holds Place.access = 1
holds Place.move = 1
holds Place.unlock = 1
holds _ = 0

unfoldable pub waited : Place → ℕ
waited Place.wait = 0
waited Place.end = 0
waited _ = 1

unfoldable pub touched : Place → ℕ
touched Place.move = 1
touched Place.unlock = 1
touched Place.post = 1
touched Place.test = 1
touched _ = 0

unfoldable pub moved : Place → ℕ
moved Place.unlock = 1
moved Place.post = 1
moved Place.test = 1
moved _ = 0

unfoldable pub posted : Place → ℕ
posted Place.test = 1
posted _ = 0

-- 100,001 rounds.
unfoldable pub Counts : Place → ℕ → Type 0
Counts Place.end count = count ≡ 100001
Counts _ count = count ≤ 100000

-- At most one thread holds `mutex`. `full` is what has been given and not taken, and `empty` the rest of `BUFFER_MAX`;
-- a thread between its first `sem_wait` and its last `sem_post` has counted the one and not the other. The indices go
-- along with the counts.
unfoldable pub Numbers : Place → Place → Store → Type 0
Numbers p q s =
    (s.mutex + holds p + holds q ≡ 1)
    × (s.empty + s.given + waited p ≡ buffer_max + s.taken + posted q)
    × (s.full + s.taken + waited q ≡ s.given + posted p)
    × (s.in_at ≡ s.given + moved p)
    × (s.out_at ≡ s.taken + moved q)

-- Each slot in use has its item, and what `Consumer` has got are the items, in order.
pub record IsStore (p q : Place) (s : Store) : Type 0 where
  pub numbers : Numbers p q s
  pub rounds : Counts p s.given
  pub rounds_taken : Counts q s.taken
  pub held : (k : ℕ) → k < s.given + touched p → s.buffer k ≡ s.items k
  pub right : (k : ℕ) → k < s.taken + touched q → s.got k ≡ s.items k

pub touched-le-waited : (p : Place) → touched p ≤ waited p
unfolding touched waited
touched-le-waited Place.wait = omega arith
touched-le-waited Place.lock = omega arith
touched-le-waited Place.access = omega arith
touched-le-waited Place.move = omega arith
touched-le-waited Place.unlock = omega arith
touched-le-waited Place.post = omega arith
touched-le-waited Place.test = omega arith
touched-le-waited Place.end = omega arith

pub posted-le-touched : (p : Place) → posted p ≤ touched p
unfolding touched posted
posted-le-touched Place.test = omega arith
posted-le-touched Place.wait = omega arith
posted-le-touched Place.lock = omega arith
posted-le-touched Place.access = omega arith
posted-le-touched Place.move = omega arith
posted-le-touched Place.unlock = omega arith
posted-le-touched Place.post = omega arith
posted-le-touched Place.end = omega arith

-- What the rounds of a thread come to, at most.
pub moved_few : (p : Place) (count : ℕ) → Counts p count → count + moved p ≤ 100001
unfolding Counts moved
moved_few Place.wait count rounds = omega arith
moved_few Place.lock count rounds = omega arith
moved_few Place.access count rounds = omega arith
moved_few Place.move count rounds = omega arith
moved_few Place.unlock count rounds = omega arith
moved_few Place.post count rounds = omega arith
moved_few Place.test count rounds = omega arith
moved_few Place.end count rounds = omega arith

pub moved-le-waited : (p : Place) → moved p ≤ waited p
unfolding moved waited
moved-le-waited Place.wait = omega arith
moved-le-waited Place.lock = omega arith
moved-le-waited Place.access = omega arith
moved-le-waited Place.move = omega arith
moved-le-waited Place.unlock = omega arith
moved-le-waited Place.post = omega arith
moved-le-waited Place.test = omega arith
moved-le-waited Place.end = omega arith

pub posted-le-moved : (p : Place) → posted p ≤ moved p
unfolding moved posted
posted-le-moved Place.wait = omega arith
posted-le-moved Place.lock = omega arith
posted-le-moved Place.access = omega arith
posted-le-moved Place.move = omega arith
posted-le-moved Place.unlock = omega arith
posted-le-moved Place.post = omega arith
posted-le-moved Place.test = omega arith
posted-le-moved Place.end = omega arith
