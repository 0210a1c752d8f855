-- ===== src/Samples/Thread.antt =====
-- The table of threads against the list of the samples stored, the last one first.
use node2x6x2b.Base.{
  ℕ, zero, suc, ◌+◌, ◌≤◌, ◌<◌, ◌≡◌, ◌≢◌, refl, arith, none, some, List, [], ◌∷◌, ltb, ◌==◌,
  if◌then◌else◌, Bool-cases, inl, inr, length,
}
use native.Mathlib.Decide.{dec_lt}
use node2x6x2b.Samples.{
  thread_max, Track, ThreadInfo, Globals, Sample, clear, initialize, find_thread,
}
use node2x6x2b.Samples.History.{Represents, IsClear}

-- A sample with the physical address that was found for it.
pub record Stored : Type 0 where
  pub sample : Sample
  pub paddr : ℕ

abbrev pub virtual_address : Stored → ℕ
virtual_address r = r.sample.addr

abbrev pub physical_address : Stored → ℕ
physical_address r = r.paddr

-- The addresses of one thread, in the order of the list.
unfoldable pub addresses : (Stored → ℕ) → ℕ → List Stored → List ℕ
addresses f tid [] = []
addresses f tid (r ∷ rs) =
    if r.sample.tid == tid then f r ∷ addresses f tid rs else addresses f tid rs

abbrev pub IsUnknown : Globals → ℕ → Type 0
IsUnknown g tid = (i : ℕ) → i < g.thread_index → (g.threads i).tid ≢ tid

pub record Inv (g : Globals) (stored : List Stored) : Type 0 where
  pub few : g.thread_index ≤ thread_max
  pub sampled : g.thread_index ≤ length stored
  pub distinct :
      (i j : ℕ)
      → i < g.thread_index
      → j < g.thread_index
      → (g.threads i).tid ≡ (g.threads j).tid
      → i ≡ j
  pub virt :
      (i : ℕ)
      → i < g.thread_index
      → Represents (g.threads i).virt (addresses virtual_address (g.threads i).tid stored)
  pub phys :
      (i : ℕ)
      → i < g.thread_index
      → Represents (g.threads i).phys (addresses physical_address (g.threads i).tid stored)
  pub populated :
      (i : ℕ)
      → i < g.thread_index
      → (0 < (g.threads i).virt.mem_addr_index) × (0 < (g.threads i).phys.mem_addr_index)
  pub unknown : (f : Stored → ℕ) (tid : ℕ) → IsUnknown g tid → addresses f tid stored ≡ []
  pub unused :
      (i : ℕ)
      → g.thread_index ≤ i
      → i < thread_max
      → IsClear (g.threads i).virt × IsClear (g.threads i).phys

clear-IsClear : (tr : Track) → IsClear (clear tr)
clear-IsClear tr = record { no_flag = λ h q. ground arith; no_slot = λ h q. ground arith }

-- `initialize` gives the table of no samples, whatever the filters held.
pub initialize-Inv : (g : Globals) → g.thread_index ≡ 0 → Inv (initialize g) []
unfolding initialize addresses
initialize-Inv g empty = record {
  few = omega arith;
  sampled = omega arith;
  distinct = λ i j p q e. absurd (omega arith);
  virt = λ i p. absurd (omega arith);
  phys = λ i p. absurd (omega arith);
  populated = λ i p. absurd (omega arith);
  unknown = λ f tid u. refl;
  unused = λ i p q. elim (Bool-cases (ltb i thread_max)) [
    | inl inside ↦ rw inside (clear-IsClear (g.threads i).virt, clear-IsClear (g.threads i).phys)
    | inr outside ↦ absurd (ground arith)
  ];
}

pub find_thread-some :
    (threads : ℕ → ThreadInfo) (tid left i j : ℕ)
    → find_thread threads tid left i ≡ some j
    → ((threads j).tid ≡ tid) × (i ≤ j) × (j < i + left)
unfolding find_thread
find_thread-some threads tid zero i j e = cc
find_thread-some threads tid (suc left) i j e =
    ground (arith, find_thread-some threads tid left (i + 1) j)

pub find_thread-none :
    (threads : ℕ → ThreadInfo) (tid left i j : ℕ)
    → find_thread threads tid left i ≡ none
    → i ≤ j
    → j < i + left
    → (threads j).tid ≢ tid
unfolding find_thread
find_thread-none threads tid zero i j e p q = absurd (omega arith)
find_thread-none threads tid (suc left) i j e p q = elim (Bool-cases ((threads i).tid == tid)) [
  | inl here ↦ cc (rw here at e)
  | inr other ↦ elim (dec_lt i j) [
    | yes later ↦
        find_thread-none threads tid left (i + 1) j (rw other at e) (omega arith) (omega arith)
    | no now ↦ ground arith
  ]
]
