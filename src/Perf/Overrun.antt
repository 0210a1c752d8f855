-- ===== src/Perf/Overrun.antt =====
-- Where the walk and the copy go too far.
use node2x6x2b.Base.{ℕ, suc, ◌+◌, ◌*◌, ◌^◌, ◌≤◌, ◌<◌, ◌≡◌, ap, ◌∙◌, arith, some, true, Bool, ltb}
use node2x6x2b.Samples.{Globals}
use node2x6x2b.Perf.Abi.{PerfAbi, SampleFlag}
use node2x6x2b.Perf.Fields.{Buffer}
use node2x6x2b.Perf.Walk.{Machine, State, visit, walk, resume}
use node2x6x2b.Perf.Ring.{hitm_sample_type, Mapping, crash, perf_mmap_read, read_records}
use node2x6x2b.Perf.Records.{plain, IsAt, visit_plain}
use node2x6x2b.Perf.Progress.{walk-goes}

walk-visits :
    (abi : PerfAbi) (st : SampleFlag → Bool) (machines : ℕ → Machine) (b : Buffer) (rounds size : ℕ)
    (s : State)
    → s.offset < size
    → walk abi st machines b (suc rounds) size s
      ≡ resume (walk abi st machines b rounds size) (visit abi st machines b s)
unfolding walk
walk-visits abi st machines b rounds size s h =
    let test : ltb s.offset size ≡ true = ground arith in rw test

-- The loop tests `offset` and not `loffset`. Where the last record is passed over and is longer than its
-- header, the test still holds behind it: the bytes at `size`, which hold no record of this buffer, are
-- visited as one more record.
walk_overruns :
    (abi : PerfAbi) (machines : ℕ → Machine) (b : Buffer) (size n rounds : ℕ) (s : State)
    → IsAt abi machines b size (plain n) s.loffset
    → s.offset < size
    → s.loffset + n ≡ size
    → 8 < n
    → size ≤ b.bytesize
    → walk abi hitm_sample_type machines b (suc (suc rounds)) size s
      ≡ resume (walk abi hitm_sample_type machines b rounds size) (
          visit abi hitm_sample_type machines b
            (record s { offset = s.loffset + 8; loffset = size }))
walk_overruns abi machines b size n rounds s at ready end long fits =
    let s1 : State = record s { offset = s.loffset + 8; loffset = size } in
    let passed : visit abi hitm_sample_type machines b s ≡ some s1 =
      visit_plain abi machines b size s n at (omega arith)
      ∙ ap (λ (l : ℕ). some (record s { offset = s.loffset + 8; loffset = l })) end in
    walk-goes abi hitm_sample_type machines b (suc rounds) size s s1 ready passed
    ∙ walk-visits abi hitm_sample_type machines b rounds size s1 (omega arith)

-- The mapping ends before `mmap_size` pages behind the control page: the copy reads outside it, for
-- every number of new bytes but 0.
pub perf_mmap_read_past_mapping :
    (abi : PerfAbi) (page_size : ℕ) (machines : ℕ → Machine) (st : SampleFlag → Bool) (m : Mapping)
    (mmap_size prev_head : ℕ) (g : Globals)
    → 0 < mmap_size
    → prev_head < m.data_head
    → m.data_head < 2 ^ 64
    → m.readable < mmap_size * page_size
    → perf_mmap_read abi page_size machines st (some m) mmap_size prev_head g ≡ crash
unfolding perf_mmap_read read_records
perf_mmap_read_past_mapping abi page_size machines st m mmap_size prev_head g pos new small short =
    ground arith
