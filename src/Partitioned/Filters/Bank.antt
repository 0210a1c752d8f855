-- ===== src/Partitioned/Filters/Bank.antt =====
-- The filters against the list of the addresses inserted for each thread.
use node2x6x2b.Base.{
  ℕ, suc, ◌≤◌, ◌<◌, ◌≡◌, refl, arith, Bool, ◌&&◌, Bool-cases, List, [], ◌∷◌, ltb, ◌==◌,
  if◌then◌else◌, inl, inr,
}
use node2x6x2b.Partitioned.Filters.{filter_size, max_filters, Bfilter, initialize_filters, slot}
use node2x6x2b.Partitioned.Filters.Index.{IsUnknown}

-- An address of a thread.
pub record Entry : Type 0 where
  pub tid : ℕ
  pub addr : ℕ

-- Whether an entry is of the thread and has the slot.
abbrev pub hit : ℕ → ℕ → Entry → Bool
hit tid h e = e.tid == tid && slot e.addr 0 filter_size == h

-- How many of the entries do.
unfoldable pub hits : ℕ → ℕ → List Entry → ℕ
hits tid h [] = 0
hits tid h (e ∷ es) = if hit tid h e then suc (hits tid h es) else hits tid h es

-- How many entries are this address of this thread.
unfoldable pub count : ℕ → ℕ → List Entry → ℕ
count tid addr [] = 0
count tid addr (e ∷ es) =
    if e.tid == tid && e.addr == addr then suc (count tid addr es) else count tid addr es

-- The first `used` filters are those of distinct threads, and each holds what was inserted for its thread.
pub record IsBank (s : ℕ → Bfilter) (used : ℕ) (entries : List Entry) : Type 0 where
  pub few : used ≤ max_filters
  pub taken : (i : ℕ) → i < max_filters → (s i).taken ≡ ltb i used
  pub distinct : (i j : ℕ) → i < used → j < used → (s i).thread_id ≡ (s j).thread_id → i ≡ j
  pub counted :
      (i h : ℕ) → i < used → h < filter_size → (s i).frequency h ≡ hits (s i).thread_id h entries
  pub clear : (i h : ℕ) → used ≤ i → i < max_filters → h < filter_size → (s i).frequency h ≡ 0
  pub flags :
      (i h : ℕ) → i < max_filters → h < filter_size → (s i).filter h ≡ ltb 0 ((s i).frequency h)
  pub unknown : (tid h : ℕ) → IsUnknown s used tid → hits tid h entries ≡ 0

-- `initialize_filters` gives the filters of no addresses, whatever they held.
pub initialize_filters-IsBank : (s : ℕ → Bfilter) → IsBank (initialize_filters s) 0 []
unfolding initialize_filters hits
initialize_filters-IsBank s = record {
  few = omega arith;
  taken = λ i p. ground arith;
  distinct = λ i j p q e. absurd (omega arith);
  counted = λ i h p q. absurd (omega arith);
  clear = λ i h p q r. ground arith;
  flags = λ i h p q. ground arith;
  unknown = λ tid h u. refl;
}

-- An entry of the list is counted for its thread and slot.
pub count-le-hits :
    (tid addr : ℕ) (entries : List Entry)
    → count tid addr entries ≤ hits tid (slot addr 0 filter_size) entries
unfolding count hits
count-le-hits tid addr [] = omega arith
count-le-hits tid addr (e ∷ es) = elim (Bool-cases (e.addr == addr)) [
  | inl same ↦
      let at : e.addr ≡ addr = ground arith in ground (arith, count-le-hits tid addr es, at)
  | inr other ↦ ground (arith, count-le-hits tid addr es)
]
