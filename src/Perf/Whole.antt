-- ===== src/Perf/Whole.antt =====
-- `perf_mmap_read` of a buffer that holds whole records.
use node2x6x2b.Base.{
  ℕ, zero, suc, ◌+◌, ◌-◌, ◌*◌, ◌%◌, ◌^◌, ◌≤◌, ◌<◌, ◌≡◌, ap, arith, some, List, [], ◌∷◌, length, u64,
  ◌==◌, leb, true, false,
}
use node2x6x2b.Samples.{Globals}
use node2x6x2b.Samples.Runs.{store_all}
use node2x6x2b.Perf.Abi.{PerfAbi}
use node2x6x2b.Perf.Fields.{Buffer}
use node2x6x2b.Perf.Walk.{Machine, State}
use node2x6x2b.Perf.Ring.{
  hitm_sample_type, Mapping, done, unwrapped, start, perf_mmap_read, read_records,
}
use node2x6x2b.Perf.Records.{Kind, Laid, IsReady, events, walk-Laid, wide, width}

module _ (abi : PerfAbi) (machines : ℕ → Machine) (b : Buffer) (size : ℕ) where
  -- Each record has at least its header.
  records-le :
      (ks : List Kind) (pos : ℕ) → Laid abi machines b size ks pos → pos + 8 * length ks ≤ size
  records-le [] pos laid = omega arith
  records-le (k ∷ ks) pos laid =
      omega (arith, wide abi machines b size k pos laid.0, records-le ks (pos + width k) laid.2)

  first-IsReady :
      (ks : List Kind) → 0 < size → Laid abi machines b size ks 0 → IsReady abi machines b size ks 0
  first-IsReady [] pos laid = absurd (omega arith)
  first-IsReady (k ∷ ks) pos laid = pos

module _ (abi : PerfAbi) (page_size : ℕ) (machines : ℕ → Machine) (m : Mapping)
    (mmap_size prev_head : ℕ) where
  -- The copied buffer, and the number of new bytes in it.
  abbrev pub copied : Buffer
  copied = unwrapped m (mmap_size * page_size) (prev_head % (mmap_size * page_size))

  abbrev pub fresh : ℕ
  fresh = m.data_head - prev_head

  -- New records that fit the copied buffer and end at the head, the last of them a sample, a throttle record or a
  -- header of 8 bytes alone: `perf_mmap_read` gives each sample among them to `storeSample`, in their order and once,
  -- does nothing else to the tables, and moves `data_tail` to the head. The samples have the 64 bytes of the fields
  -- that are asked for, the ring has to be readable as far as the copy goes, and the arrays of `storeSample` must have
  -- room.
  pub perf_mmap_read-Laid :
      (ks : List Kind) (g g' : Globals)
      → prev_head < m.data_head
      → m.data_head < 2 ^ 64
      → fresh ≤ mmap_size * page_size
      → mmap_size * page_size ≤ m.readable
      → Laid abi machines copied fresh ks 0
      → store_all (events abi machines copied fresh ks 0 0) g ≡ some g'
      → perf_mmap_read abi page_size machines hitm_sample_type (some m) mmap_size prev_head g
        ≡ done g' m.data_head
  unfolding perf_mmap_read read_records
  perf_mmap_read-Laid ks g g' new small fits readable laid stored =
      let size : u64 (m.data_head + 2 ^ 64 - prev_head) ≡ fresh = omega arith in
      let mapped : (mmap_size == 0) ≡ false = nonzero mmap_size page_size fits in
      let some_new : (fresh == 0) ≡ false = ground arith in
      let inside : leb (mmap_size * page_size) m.readable ≡ true = ground arith in
      let s0 : State = start abi page_size machines g in
      let (s, w, c, e) =
        walk-Laid abi machines copied fresh ks (fresh + 2) s0 g' laid
          (first-IsReady abi machines copied fresh ks (omega arith) laid) fits
          (omega (arith, records-le abi machines copied fresh ks 0 laid)) stored in
      rw (size, mapped, some_new, inside, w) (ap (λ (h : Globals). done h m.data_head) e)
    where
      nonzero : (k p : ℕ) → fresh ≤ k * p → (k == 0) ≡ false
      nonzero zero p h = absurd (omega arith)
      nonzero (suc k) p h = ground arith
