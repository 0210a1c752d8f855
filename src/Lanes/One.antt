-- ===== src/Lanes/One.antt =====
-- One pair: what the threads know at each place, and what it means that the ring is a queue.
use node2x6x2b.Base.{ℕ, ◌+◌, ◌%◌, ◌≤◌, ◌<◌, ◌≡◌, refl, sym, ◌∙◌, arith}
use node2x6x2b.Lanes.{buff_max, iter, Place, Lane, initialize_in_out}

-- What `Producer` knows at its place.
unfoldable pub Gave : Place → Lane → Type 0
Gave Place.loop s = Unit
Gave Place.wait s = s.given < iter
Gave Place.access s = (s.given < iter) × (s.given + 1 < s.taken + buff_max)
Gave Place.move s =
    (s.given < iter)
    × (s.given + 1 < s.taken + buff_max)
    × (s.buff (s.given % buff_max) ≡ s.items s.given)
Gave Place.end s = s.given ≡ iter

-- What `Consumer` knows at its place.
unfoldable pub Takes : Place → Lane → Type 0
Takes Place.loop s = Unit
Takes Place.wait s = s.taken < iter
Takes Place.access s = (s.taken < iter) × (s.taken < s.given)
Takes Place.move s = (s.taken < iter) × (s.taken < s.given) × (s.got s.taken ≡ s.items s.taken)
Takes Place.end s = s.taken ≡ iter

-- The indices are the counts modulo the size of the ring, at most 199 items are in it, each in its slot, and what
-- `Consumer` has got are the items, in order.
pub record IsQueue (s : Lane) : Type 0 where
  pub in_is : s.in_at ≡ s.given % buff_max
  pub out_is : s.out_at ≡ s.taken % buff_max
  pub behind : s.taken ≤ s.given
  pub few : s.given < s.taken + buff_max
  pub all : s.given ≤ iter
  pub held : (k : ℕ) → s.taken ≤ k → k < s.given → s.buff (k % buff_max) ≡ s.items k
  pub right : (k : ℕ) → k < s.taken → s.got k ≡ s.items k
  pub producer : Gave s.producer s
  pub consumer : Takes s.consumer s

pub initialize_in_out-IsQueue : (garbage : Lane) → IsQueue (initialize_in_out garbage)
unfolding Gave Takes
initialize_in_out-IsQueue garbage = record {
  in_is = refl;
  out_is = refl;
  behind = omega arith;
  few = omega arith;
  all = omega arith;
  held = λ k le lt. absurd (omega arith);
  right = λ k lt. absurd (omega arith);
  producer = tt;
  consumer = tt;
}

-- What a thread knows does not depend on where the threads are, and outlives what the other one does.
pub Takes-given :
    (q : Place) (s s' : Lane)
    → s'.taken ≡ s.taken
    → s.given ≤ s'.given
    → s'.got s.taken ≡ s.got s.taken
    → (s.taken < s.given → s'.items s.taken ≡ s.items s.taken)
    → Takes q s
    → Takes q s'
unfolding Takes
Takes-given Place.loop s s' same more got items t = tt
Takes-given Place.wait s s' same more got items t = omega (arith, same)
Takes-given Place.access s s' same more got items (few, lt) =
    (omega (arith, same), omega (arith, same))
Takes-given Place.move s s' same more got items (few, lt, right) =
    (omega (arith, same), omega (arith, same), rw same (got ∙ right ∙ sym (items lt)))
Takes-given Place.end s s' same more got items t = omega (arith, same)

pub Gave-taken :
    (p : Place) (s s' : Lane)
    → s'.given ≡ s.given
    → s.taken ≤ s'.taken
    → ((h : ℕ) → s'.buff h ≡ s.buff h)
    → ((k : ℕ) → s'.items k ≡ s.items k)
    → Gave p s
    → Gave p s'
unfolding Gave
Gave-taken Place.loop s s' same more buff items t = tt
Gave-taken Place.wait s s' same more buff items t = omega (arith, same)
Gave-taken Place.access s s' same more buff items (few, lt) =
    (omega (arith, same), omega (arith, same))
Gave-taken Place.move s s' same more buff items (few, lt, right) = (
  omega (arith, same),
  omega (arith, same),
  rw same (buff (s.given % buff_max) ∙ right ∙ sym (items s.given)),
)
Gave-taken Place.end s s' same more buff items t = omega (arith, same)

-- A thread goes to another place.
pub produce_goes :
    (s : Lane) (x : Place) → IsQueue s → Gave x s → IsQueue (record s { producer = x })
produce_goes s x f g = record {
  in_is = f.in_is;
  out_is = f.out_is;
  behind = f.behind;
  few = f.few;
  all = f.all;
  held = f.held;
  right = f.right;
  producer =
      Gave-taken x s (record s { producer = x }) refl (omega arith) (λ h. refl) (λ k. refl) g;
  consumer =
      Takes-given s.consumer s (record s { producer = x }) refl (omega arith) refl (λ lt. refl)
        f.consumer;
}

pub consume_goes :
    (s : Lane) (x : Place) → IsQueue s → Takes x s → IsQueue (record s { consumer = x })
consume_goes s x f t = record {
  in_is = f.in_is;
  out_is = f.out_is;
  behind = f.behind;
  few = f.few;
  all = f.all;
  held = f.held;
  right = f.right;
  producer =
      Gave-taken s.producer s (record s { consumer = x }) refl (omega arith) (λ h. refl) (λ k. refl)
        f.producer;
  consumer = Takes-given x s (record s { consumer = x }) refl (omega arith) refl (λ lt. refl) t;
}
