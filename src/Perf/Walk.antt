-- ===== src/Perf/Walk.antt =====
-- `perf_mmap_read`: the loop over the records of the copied buffer.
use node2x6x2b.Base.{
  ℕ, zero, suc, ◌+◌, Bool, Option, none, some, ltb, leb, if◌then◌else◌, ◌>>=◌, guard,
}
use node2x6x2b.Pagemap.{Kernel}
use node2x6x2b.Samples.{Globals, Sample, store_sample}
use node2x6x2b.Perf.Abi.{PerfAbi, EventType, SampleFlag}
use node2x6x2b.Perf.Fields.{Buffer, Fields, copy_long, sample_fields}

-- The kernel, and what an uninitialised variable holds, at the time of one call of `storeSample`.
pub record Machine : Type 0 where
  pub kernel : Kernel
  pub uninit : ℕ

-- The variables of the loop, with the tables that `storeSample` changes.
pub record State : Type 0 where
  pub offset : ℕ
  pub loffset : ℕ
  pub count : ℕ
  pub globals : Globals

-- `unfinished` stands for a loop that goes on after the given rounds, `fault` for an access outside an
-- array.
pub data Walked : Type 0 where
  finished : State → Walked
  fault unfinished : Walked

abbrev pub resume : (State → Walked) → Option State → Walked
resume next none = fault
resume next (some s) = next s

module _ (abi : PerfAbi) (sample_type : SampleFlag → Bool) (machines : ℕ → Machine)
    (b : Buffer) where
  abbrev pub sample_of : Fields → Sample
  sample_of f = record { pid = f.pid; tid = f.tid; addr = f.addr; cpu = f.cpu }

  -- `throttle_time`, `id` and `stream_id`
  unfoldable pub throttled : State → Option State
  throttled s = do
    throttle_time ← copy_long b s.offset
    id ← copy_long b (s.offset + 8)
    stream_id ← copy_long b (s.offset + 16)
    some (record s { offset = s.offset + 24 })

  unfoldable pub sampled : State → Option State
  sampled s = do
    f ← sample_fields b abi sample_type s.offset
    g ← store_sample (machines s.count).kernel (machines s.count).uninit (sample_of f) s.globals
    some (record s { offset = f.offset; count = s.count + 1; globals = g })

  abbrev pub by_type : EventType → State → Option State
  by_type EventType.throttle s = throttled s
  by_type EventType.unthrottle s = throttled s
  by_type EventType.sample s = sampled s
  by_type _ s = some s

  abbrev pub advance : ℕ → State → Option State
  advance size s = some (record s { loffset = s.loffset + size })

  -- One round; the header has 8 bytes.
  unfoldable pub visit : State → Option State
  visit s = guard (leb (s.loffset + 8) b.bytesize) (
      by_type (abi.event_type b.bytes s.loffset) (record s { offset = s.loffset + 8 })
      >>= advance (abi.event_size b.bytes s.loffset))

  -- `while (offset < size)`
  unfoldable pub walk : ℕ → ℕ → State → Walked
  walk zero size s = unfinished
  walk (suc rounds) size s =
      let go_on = resume (λ s'. walk rounds size s') (visit s) in
      if ltb s.offset size then go_on else finished s
