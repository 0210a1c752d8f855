-- ===== src/Perf/Tables.antt =====
-- Whatever the ring buffers hold, the walk keeps the tables right.
use node2x6x2b.Base.{
  ℕ, zero, suc, ◌+◌, ◌-◌, ◌*◌, ◌%◌, ◌^◌, ◌≡◌, refl, arith, Bool, some, List, [], ◌∷◌, ◌++◌, length,
  leb, ◌>>=◌, >>=-eq-some, Option-cases, Bool-cases, inl, inr, ◌==◌, u64,
}
use native.Mathlib.Decide.{dec_lt}
use node2x6x2b.Samples.{Globals, Sample, store_sample}
use node2x6x2b.Samples.Thread.{Stored, Inv}
use node2x6x2b.Samples.Store.{stored_as, store_sample-Inv, store_sample-HasRoom}
use node2x6x2b.Perf.Abi.{PerfAbi, EventType, SampleFlag}
use node2x6x2b.Perf.Fields.{Buffer, Fields, sample_fields}
use node2x6x2b.Perf.Walk.{
  Machine, State, Walked, finished, fault, unfinished, throttled, sampled, by_type, advance,
  sample_of, visit, walk,
}
use node2x6x2b.Perf.Progress.{walk-stops, walk-goes, walk-faults}
use node2x6x2b.Perf.Ring.{Mapping, done, perf_mmap_read, read_records, read_out, unwrapped, start}

-- The tables are those of the samples before and of as many more as the walk has counted from `base` on.
abbrev pub HasStored : List Stored → ℕ → ℕ → Globals → Type 0
HasStored stored base count g =
    (new : List Stored) × Inv g (new ++ stored) × (length new + base ≡ count)

store_sample-HasStored :
    (m : Machine) (s : Sample) (g g' : Globals) (stored : List Stored) (base count : ℕ)
    → HasStored stored base count g
    → store_sample m.kernel m.uninit s g ≡ some g'
    → HasStored stored base (count + 1) g'
store_sample-HasStored m s g g' stored base count (new, inv, counted) e =
    let (h, same, inv') =
      store_sample-Inv m.kernel m.uninit s g (new ++ stored) inv
        (store_sample-HasRoom m.kernel m.uninit s g g' (new ++ stored) inv e) in
    let eq : h ≡ g' = cc (e, same) in
    (stored_as m.kernel m.uninit s ∷ new, rw (← eq) inv', omega arith)

module _ (abi : PerfAbi) (st : SampleFlag → Bool) (machines : ℕ → Machine) (b : Buffer)
    (stored : List Stored) (base : ℕ) where
  -- The same of a state of the walk.
  abbrev pub Holds : State → Type 0
  Holds s = HasStored stored base s.count s.globals

  sampled-HasStored : (s s' : State) → Holds s → sampled abi st machines b s ≡ some s' → Holds s'
  unfolding sampled
  sampled-HasStored s s' has e =
      let sample = λ (f : Fields). sample_of abi st machines b f in
      let put = λ (f : Fields).
        λ (g : Globals). record s { offset = f.offset; count = s.count + 1; globals = g } in
      let (f, fields, e1) =
        >>=-eq-some (sample_fields b abi st s.offset)
          (λ f.
            store_sample (machines s.count).kernel (machines s.count).uninit (sample f) s.globals
            >>= λ g. some (put f g))
          e in
      let (g, ok, e2) =
        >>=-eq-some
          (store_sample (machines s.count).kernel (machines s.count).uninit (sample f) s.globals)
          (λ g. some (put f g)) e1 in
      let same : s'.globals ≡ g = ground arith in
      let counted : s'.count ≡ s.count + 1 = ground arith in
      rw (same, counted)
        (store_sample-HasStored (machines s.count) (sample f) s.globals g stored base s.count has
          ok)

  by_type-HasStored :
      (t : EventType) (s s' : State) → Holds s → by_type abi st machines b t s ≡ some s' → Holds s'
  unfolding throttled
  by_type-HasStored EventType.sample s s' has e = sampled-HasStored s s' has e
  by_type-HasStored EventType.throttle s s' has e =
      let same : s'.globals ≡ s.globals = ground arith in
      let counted : s'.count ≡ s.count = ground arith in rw (same, counted) has
  by_type-HasStored EventType.unthrottle s s' has e =
      let same : s'.globals ≡ s.globals = ground arith in
      let counted : s'.count ≡ s.count = ground arith in rw (same, counted) has
  by_type-HasStored _ s s' has e =
      let same : s'.globals ≡ s.globals = ground arith in
      let counted : s'.count ≡ s.count = ground arith in rw (same, counted) has

  visit-HasStored : (s s' : State) → Holds s → visit abi st machines b s ≡ some s' → Holds s'
  unfolding visit
  visit-HasStored s s' has e = elim (Bool-cases (leb (s.loffset + 8) b.bytesize)) [
    | inl inside ↦
        let s0 : State = record s { offset = s.loffset + 8 } in
        let size = abi.event_size b.bytes s.loffset in
        let (s1, body, e1) =
          >>=-eq-some (by_type abi st machines b (abi.event_type b.bytes s.loffset) s0)
            (advance abi st machines b size) (rw inside at e) in
        let same : s'.globals ≡ s1.globals = ground arith in
        let counted : s'.count ≡ s1.count = ground arith in
        rw (same, counted) (by_type-HasStored (abi.event_type b.bytes s.loffset) s0 s1 has body)
    | inr outside ↦ cc (rw outside at e)
  ]

  walk-none : (size : ℕ) (s : State) → walk abi st machines b zero size s ≡ unfinished
  unfolding walk
  walk-none size s = refl

  -- Whatever the buffer holds, and whatever fields the samples have: where the walk comes to its end, the tables are
  -- those of the samples before it and of as many more as it has counted, if they were right before it.
  pub walk-HasStored :
      (rounds size : ℕ) (s s' : State)
      → Holds s
      → walk abi st machines b rounds size s ≡ finished s'
      → Holds s'
  walk-HasStored zero size s s' has e = cc (e, walk-none size s)
  walk-HasStored (suc rounds) size s s' has e = elim (dec_lt s.offset size) [
    | no over ↦
        let same : s ≡ s' = cc (e, walk-stops abi st machines b rounds size s (omega arith)) in
        rw (← same) has
    | yes more ↦ elim (Option-cases (visit abi st machines b s)) [
      | inl bad ↦ cc (e, walk-faults abi st machines b rounds size s more bad)
      | inr (s1, good) ↦
          walk-HasStored rounds size s1 s' (visit-HasStored s s1 has good)
            (rw (walk-goes abi st machines b rounds size s s1 more good) at e)
    ]
  ]

read_out-done :
    (head : ℕ) (w : Walked) (g : Globals) (tail : ℕ)
    → read_out head w ≡ done g tail
    → (s : State) × (w ≡ finished s) × (s.globals ≡ g)
read_out-done head (finished s) g tail e = (s, refl, ground arith)
read_out-done head fault g tail e = cc
read_out-done head unfinished g tail e = cc

read_records-HasStored :
    (abi : PerfAbi) (page_size : ℕ) (machines : ℕ → Machine) (st : SampleFlag → Bool) (m : Mapping)
    (bytesize wrap size : ℕ) (g g' : Globals) (tail : ℕ) (stored : List Stored)
    → Inv g stored
    → read_records abi page_size machines st m bytesize wrap size g ≡ done g' tail
    → (new : List Stored) × Inv g' (new ++ stored)
unfolding read_records
read_records-HasStored abi page_size machines st m bytesize wrap size g g' tail stored inv e =
    elim (Bool-cases (leb bytesize m.readable)) [
      | inl inside ↦
          let b : Buffer = unwrapped m bytesize wrap in
          let s0 : State = start abi page_size machines g in
          let (s, w, same) =
            read_out-done m.data_head (walk abi st machines b (size + 2) size s0) g' tail
              (rw inside at e) in
          let (new, inv', counted) =
            walk-HasStored abi st machines b stored s0.count (size + 2) size s0 s ([], inv, refl)
              w in
          (new, rw (← same) inv')
      | inr outside ↦ cc (rw outside at e)
    ]

-- The tables are those of some list of samples.
abbrev pub HasTables : Globals → Type 0
HasTables g = (stored : List Stored) × Inv g stored

-- Whatever the kernel has put into the ring buffer: where `perf_mmap_read` returns, the tables are right if they were
-- right before.
pub perf_mmap_read-HasTables :
    (abi : PerfAbi) (page_size : ℕ) (machines : ℕ → Machine) (st : SampleFlag → Bool) (m : Mapping)
    (mmap_size prev_head : ℕ) (g g' : Globals) (tail : ℕ)
    → HasTables g
    → perf_mmap_read abi page_size machines st (some m) mmap_size prev_head g ≡ done g' tail
    → HasTables g'
unfolding perf_mmap_read
perf_mmap_read-HasTables abi page_size machines st m mmap_size prev_head g g' tail (stored, inv) e =
    elim (Bool-cases (mmap_size == 0)) [
      | inl empty ↦ cc (rw empty at e)
      | inr mapped ↦ elim (Bool-cases (u64 (m.data_head + 2 ^ 64 - prev_head) == 0)) [
        | inl same ↦ let kept : g ≡ g' = ground arith in (stored, rw (← kept) inv)
        | inr new ↦
            let (more, inv') =
              read_records-HasStored abi page_size machines st m (mmap_size * page_size)
                (prev_head % (mmap_size * page_size)) (u64 (m.data_head + 2 ^ 64 - prev_head)) g g'
                tail stored inv (rw (mapped, new) at e) in
            (more ++ stored, inv')
      ]
    ]
