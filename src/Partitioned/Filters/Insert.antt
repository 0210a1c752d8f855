-- ===== src/Partitioned/Filters/Insert.antt =====
-- What `getfilters` and `check_filter` do with the filters of a bank.
use node2x6x2b.Base.{
  ℕ, ◌+◌, ◌*◌, ◌/◌, ◌^◌, ◌≤◌, ◌<◌, ◌≡◌, ◌≢◌, refl, sym, ap, ◌∙◌, arith, true, none, some, List, ◌∷◌,
  ltb, update,
}
use node2x6x2b.Partitioned.Text.{type_tid, type_addr}
use node2x6x2b.Partitioned.Filters.{
  filter_size, partitions, max_filters, Bfilter, slot, set_slot, insert_loop, insert_into_filter,
  check_loop, check_filter, find_index, getfilters,
}
use node2x6x2b.Partitioned.Filters.Index.{slot-lt, IsUnknown, Found, find_index-Found}
use node2x6x2b.Partitioned.Filters.Bank.{Entry, hits, count, IsBank, count-le-hits}

-- The filter with one more address.
abbrev with_slot : Bfilter → ℕ → ℕ → Bfilter
with_slot f tid h = record {
  taken = true;
  thread_id = tid;
  filter = update f.filter h true;
  frequency = update f.frequency h (f.frequency h + 1);
}

insert_into_filter-inside :
    (s : ℕ → Bfilter) (tid index addr : ℕ)
    → slot addr 0 filter_size < filter_size
    → insert_into_filter tid index addr (filter_size / partitions) s
      ≡ some (update s index (with_slot (s index) tid (slot addr 0 filter_size)))
unfolding insert_into_filter insert_loop set_slot
insert_into_filter-inside s tid index addr lt = ground arith

module _ {s : ℕ → Bfilter} {used : ℕ} {entries : List Entry} (bank : IsBank s used entries)
    (e : Entry) (inside : slot e.addr 0 filter_size < filter_size) where
  abbrev after : ℕ → ℕ → Bfilter
  after i = update s i (with_slot (s i) e.tid (slot e.addr 0 filter_size))

  -- Another address of a thread that has a filter.
  own-IsBank : (i : ℕ) → i < used → (s i).thread_id ≡ e.tid → IsBank (after i) used (e ∷ entries)
  unfolding hits
  own-IsBank i lt own = record {
    few = bank.few;
    taken = λ j p. ground (arith, bank.taken j p, bank.few);
    distinct =
        λ j k p q same. ground (arith, bank.distinct j k, bank.distinct i k, bank.distinct j i);
    counted = λ j h p q. ground (arith, bank.counted j h, bank.distinct i j);
    clear = λ j h p q r. ground (arith, bank.clear j h);
    flags = λ j h p q. ground (arith, bank.flags j h);
    unknown = λ tid h u.
        let ne : e.tid ≢ tid = λ q. ground (arith, u i lt) in
        ground (arith, bank.unknown tid h (λ j p. λ q. ground (arith, u j p)));
  }

  -- The first address of a thread.
  free-IsBank :
      used < max_filters → IsUnknown s used e.tid → IsBank (after used) (used + 1) (e ∷ entries)
  unfolding hits
  free-IsBank room new = record {
    few = omega arith;
    taken = λ j p. ground (arith, bank.taken j p);
    distinct = λ j k p q same. ground (arith, bank.distinct j k, new j, new k);
    counted = λ j h p q.
        ground (arith, bank.counted j h, bank.clear used h, new j, bank.unknown e.tid h new);
    clear = λ j h p q r. ground (arith, bank.clear j h);
    flags = λ j h p q. ground (arith, bank.flags j h);
    unknown = λ tid h u.
        let ne : e.tid ≢ tid = λ q. ground (arith, u used (omega arith)) in
        ground (arith, bank.unknown tid h (λ j p. λ q. ground (arith, u j (omega arith))));
  }

-- Where `findIndex` finds a filter and 6 times the address is a positive `long`, `getfilters` stays inside
-- the array and leaves a bank with one entry more.
pub getfilters-IsBank :
    (s : ℕ → Bfilter) (used : ℕ) (entries : List Entry) (c_tid c_addr : List ℕ)
    → IsBank s used entries
    → find_index s (type_tid c_tid) ≢ none
    → 0 < type_addr c_addr
    → 6 * type_addr c_addr < 2 ^ 63
    → (s' : ℕ → Bfilter) × (used' : ℕ) × (used' ≤ used + 1)
      × (getfilters c_tid c_addr s ≡ some s')
      × IsBank s' used' (record { tid = type_tid c_tid; addr = type_addr c_addr } ∷ entries)
unfolding getfilters
getfilters-IsBank s used entries c_tid c_addr bank room pos small =
    let tid = type_tid c_tid in
    let addr = type_addr c_addr in
    let inside = slot-lt addr pos small in
    let e : Entry = record { tid = tid; addr = addr } in
    elim (find_index-Found s used tid bank.few bank.taken) [
      | Found.own i found lt own ↦ (
        _,
        used,
        omega arith,
        rw found (insert_into_filter-inside s tid i addr inside),
        own-IsBank bank e inside i lt own,
      )
      | Found.free found lt new ↦ (
        _,
        used + 1,
        omega arith,
        rw found (insert_into_filter-inside s tid used addr inside),
        free-IsBank bank e inside lt new,
      )
      | Found.full found all new ↦ absurd (room found)
    ]

-- A bank that is not full has a filter for every thread.
pub find_index-room :
    {s : ℕ → Bfilter} {used : ℕ} {entries : List Entry} (tid : ℕ)
    → IsBank s used entries
    → used < max_filters
    → find_index s tid ≢ none
find_index-room {s} {used} tid bank room absent =
    elim (find_index-Found s used tid bank.few bank.taken) [
      | Found.own i found lt own ↦ let clash : none ≡ some i = sym absent ∙ found in cc
      | Found.free found lt new ↦ let clash : none ≡ some used = sym absent ∙ found in cc
      | Found.full found all new ↦ omega arith
    ]

-- Where all filters are those of other threads, the address is dropped without a word.
getfilters-full :
    (s : ℕ → Bfilter) (entries : List Entry) (c_tid c_addr : List ℕ)
    → IsBank s max_filters entries
    → IsUnknown s max_filters (type_tid c_tid)
    → getfilters c_tid c_addr s ≡ some s
unfolding getfilters
getfilters-full s entries c_tid c_addr bank new =
    elim (find_index-Found s max_filters (type_tid c_tid) bank.few bank.taken) [
      | Found.own i found lt own ↦ absurd (new i lt own)
      | Found.free found lt other ↦ absurd (omega arith)
      | Found.full found all other ↦ rw found refl
    ]

-- The thread of an address inserted before has a filter, and `check_filter` finds the address there, if it is
-- positive and 6 times it is a `long`.
check_filter_complete :
    (s : ℕ → Bfilter) (used : ℕ) (entries : List Entry) (tid addr : ℕ)
    → IsBank s used entries
    → 0 < addr
    → 6 * addr < 2 ^ 63
    → 0 < count tid addr entries
    → (i : ℕ) × (i < used)
      × ((s i).thread_id ≡ tid)
      × (check_filter (s i) addr (filter_size / partitions) ≡ some true)
unfolding check_filter check_loop
check_filter_complete s used entries tid addr bank pos small present =
    let h = slot addr 0 filter_size in
    let inside : h < filter_size = slot-lt addr pos small in
    let positive : 0 < hits tid h entries = omega (arith, count-le-hits tid addr entries) in
    elim (find_index-Found s used tid bank.few bank.taken) [
      | Found.own i found lt own ↦
          let kept : (s i).frequency h ≡ hits (s i).thread_id h entries =
            bank.counted i h lt inside in
          let same : hits (s i).thread_id h entries ≡ hits tid h entries =
            ap (λ (t : ℕ). hits t h entries) own in
          let set : (s i).filter h ≡ true = ground (arith, bank.flags i h, bank.few, same, kept) in
          let test : ltb h filter_size ≡ true = ground arith in (i, lt, own, rw (test, set) refl)
      | Found.free found lt new ↦ absurd (omega (arith, bank.unknown tid h new))
      | Found.full found all new ↦ absurd (omega (arith, bank.unknown tid h new))
    ]
