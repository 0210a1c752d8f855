-- ===== src/Perf/Ring.antt =====
-- `perf_mmap_read` as a whole, and the flags with which `sample` opens the event.
use node2x6x2b.Base.{
  ℕ, ◌+◌, ◌-◌, ◌*◌, ◌%◌, ◌^◌, Bool, true, false, Option, none, some, ltb, leb, ◌==◌, if◌then◌else◌,
  u64,
}
use node2x6x2b.Samples.{Globals}
use node2x6x2b.Perf.Abi.{PerfAbi, SampleFlag}
use node2x6x2b.Perf.Fields.{Buffer}
use node2x6x2b.Perf.Walk.{Machine, State, Walked, finished, fault, unfinished, walk}

-- PERF_SAMPLE_IP | PERF_SAMPLE_TID | PERF_SAMPLE_ADDR | PERF_SAMPLE_CPU | PERF_SAMPLE_PERIOD
-- | PERF_SAMPLE_WEIGHT | PERF_SAMPLE_DATA_SRC
unfoldable pub hitm_sample_type : SampleFlag → Bool
hitm_sample_type SampleFlag.ip = true
hitm_sample_type SampleFlag.tid = true
hitm_sample_type SampleFlag.addr = true
hitm_sample_type SampleFlag.cpu = true
hitm_sample_type SampleFlag.period = true
hitm_sample_type SampleFlag.weight = true
hitm_sample_type SampleFlag.data_src = true
hitm_sample_type _ = false

-- A mapping of a perf event: `data_head` of its control page, and the bytes behind that page, of which
-- `readable` can be read.
pub record Mapping : Type 0 where
  pub data_head : ℕ
  pub ring : ℕ → ℕ
  pub readable : ℕ

-- The result of `perf_mmap_read`: 0, -1, or 1 with the loop's last state and the new `data_tail`.
pub data ReadOut : Type 0 where
  zero_size null_page : ReadOut
  done : (globals : Globals) (data_tail : ℕ) → ReadOut
  crash endless : ReadOut

abbrev pub read_out : ℕ → Walked → ReadOut
read_out head (finished s) = done s.globals head
read_out head fault = crash
read_out head unfinished = endless

-- The two `memcpy` calls into `data`.
abbrev pub unwrapped : Mapping → ℕ → ℕ → Buffer
unwrapped m bytesize wrap = record {
  bytes =
      λ i. if ltb i (bytesize - wrap) then m.ring (wrap + i) else m.ring (i - (bytesize - wrap));
  bytesize = bytesize;
}

module _ (abi : PerfAbi) (page_size : ℕ) (machines : ℕ → Machine) where
  -- The record walk starts with all variables 0.
  abbrev pub start : Globals → State
  start g = record { offset = 0; loffset = 0; count = 0; globals = g }

  -- The part under `if(size)`. Each round moves on by a record, so `size + 2` rounds are enough where
  -- no record has size 0.
  unfoldable pub read_records : (SampleFlag → Bool) → Mapping → ℕ → ℕ → ℕ → Globals → ReadOut
  read_records sample_type m bytesize wrap size g =
      if leb bytesize m.readable
      then read_out m.data_head
          (walk abi sample_type machines (unwrapped m bytesize wrap) (size + 2) size (start g))
      else crash

  -- A NULL mapping is `none`; `prev_head` is not negative, and `mmap_size*getpagesize()` fits its `int`.
  unfoldable pub perf_mmap_read : (SampleFlag → Bool) → Option Mapping → ℕ → ℕ → Globals → ReadOut
  perf_mmap_read sample_type none mmap_size prev_head g =
      if mmap_size == 0 then zero_size else null_page
  perf_mmap_read sample_type (some m) mmap_size prev_head g =
      let size = u64 (m.data_head + 2 ^ 64 - prev_head) in
      let bytesize = mmap_size * page_size in
      let prev_head_wrap = prev_head % bytesize in
      if mmap_size == 0
      then zero_size
      else (if size == 0
          then done g m.data_head
          else read_records sample_type m bytesize prev_head_wrap size g)
