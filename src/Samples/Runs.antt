-- ===== src/Samples/Runs.antt =====
-- Many samples: the calls of `storeSample` that `perf_mmap_read` makes, from `initialize` on.
use node2x6x2b.Base.{
  ℕ, ◌+◌, ◌≤◌, ◌<◌, ◌≡◌, refl, arith, Option, some, List, [], ◌∷◌, ◌>>=◌, length, Option-cases, inl,
  inr, sum_below-le, sum_below-ones,
}
use node2x6x2b.Pagemap.{Kernel}
use node2x6x2b.Samples.{unique, Track, Globals, Sample, initialize, store_sample}
use node2x6x2b.Samples.History.{Represents}
use node2x6x2b.Samples.Thread.{
  Stored, virtual_address, physical_address, addresses, Inv, initialize-Inv,
}
use node2x6x2b.Samples.Store.{HasRoom, stored_as, store_sample-Inv, store_sample-HasRoom}

-- A sample, with the kernel as it is when the sample is stored.
pub record Event : Type 0 where
  pub kernel : Kernel
  pub uninit : ℕ
  pub sample : Sample

unfoldable pub store_all : List Event → Globals → Option Globals
store_all [] g = some g
store_all (e ∷ es) g = store_sample e.kernel e.uninit e.sample g >>= store_all es

-- The samples stored, the last one first, on top of those of before.
unfoldable pub recorded : List Event → List Stored → List Stored
recorded [] stored = stored
recorded (e ∷ es) stored = recorded es (stored_as e.kernel e.uninit e.sample ∷ stored)

-- The tables are right after every run that stays inside the arrays.
store_all-Inv :
    (events : List Event) (g g' : Globals) (stored : List Stored)
    → Inv g stored
    → store_all events g ≡ some g'
    → Inv g' (recorded events stored)
unfolding store_all recorded
store_all-Inv [] g g' stored inv done = let same : g ≡ g' = cc in rw (← same) inv
store_all-Inv (e ∷ es) g g' stored inv done =
    elim (Option-cases (store_sample e.kernel e.uninit e.sample g)) [
      | inl bad ↦ cc (rw bad at done)
      | inr (h, good) ↦
          let (h', same, inv') =
            store_sample-Inv e.kernel e.uninit e.sample g stored inv
              (store_sample-HasRoom e.kernel e.uninit e.sample g h stored inv good) in
          store_all-Inv es h' g' (stored_as e.kernel e.uninit e.sample ∷ stored) inv'
            (rw same at done)
    ]

length-addresses :
    (f : Stored → ℕ) (tid : ℕ) (stored : List Stored)
    → length (addresses f tid stored) ≤ length stored
unfolding addresses
length-addresses f tid [] = omega arith
length-addresses f tid (r ∷ rs) = ground (arith, length-addresses f tid rs)

-- A table holds at most as many addresses as were recorded.
index-le :
    {tr : Track} {history : List ℕ} → Represents tr history → tr.mem_addr_index ≤ length history
index-le {tr} {history} rep = omega (
  arith,
  rep.total,
  sum_below-ones tr.mem_addr_index,
  sum_below-le tr.mem_addr_index (λ i. 1) tr.freq
      (λ i p. omega (arith, rep.counted i p, rep.seen i p)),
)

pub few-HasRoom :
    (g : Globals) (stored : List Stored) (tid : ℕ)
    → Inv g stored
    → length stored < unique
    → HasRoom g tid
few-HasRoom g stored tid inv few = (
  λ i lt own. (
    omega (
      arith,
      index-le (inv.virt i lt),
      length-addresses virtual_address (g.threads i).tid stored,
    ),
    omega (
      arith,
      index-le (inv.phys i lt),
      length-addresses physical_address (g.threads i).tid stored,
    ),
  ),
  λ fresh. omega (arith, inv.sampled),
)

-- Up to `UNIQUE` samples in all are stored within the arrays, whatever they are, and the tables are right
-- for them, if they were right before.
pub store_all_few :
    (events : List Event) (g : Globals) (stored : List Stored)
    → Inv g stored
    → length events + length stored ≤ unique
    → (g' : Globals) × (store_all events g ≡ some g') × Inv g' (recorded events stored)
unfolding store_all recorded
store_all_few [] g stored inv few = (g, refl, inv)
store_all_few (e ∷ es) g stored inv few =
    let (h, good, inv') =
      store_sample-Inv e.kernel e.uninit e.sample g stored inv
        (few-HasRoom g stored e.sample.tid inv (omega arith)) in
    rw good (store_all_few es h (stored_as e.kernel e.uninit e.sample ∷ stored) inv' (omega arith))

-- A run from `initialize`, with no thread before it, that stays inside the arrays leaves tables that are right for its samples.
store_all-initialize :
    (events : List Event) (g g' : Globals)
    → g.thread_index ≡ 0
    → store_all events (initialize g) ≡ some g'
    → Inv g' (recorded events [])
store_all-initialize events g g' empty done =
    store_all-Inv events (initialize g) g' [] (initialize-Inv g empty) done
