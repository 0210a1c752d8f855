-- ===== src/Tests/Rings.antt =====
-- `perf_mmap_read` on concrete rings.
use node2x6x2b.Base.{
  ℕ, ◌+◌, ◌≡◌, ◌≢◌, ◌≤◌, >>=-eq-some, refl, arith, some, List, [], ◌∷◌, ◌==◌, if◌then◌else◌,
}
use node2x6x2b.Samples.{Globals, initialize, store_sample}
use node2x6x2b.Samples.Thread.{initialize-Inv, Inv}
use node2x6x2b.Samples.Runs.{store_all, store_all_few, recorded}
use node2x6x2b.Perf.Abi.{PerfAbi, EventType}
use node2x6x2b.Perf.Fields.{Buffer}
use node2x6x2b.Perf.Layout.{sample_at}
use node2x6x2b.Perf.Walk.{Machine, State, finished, unfinished, walk}
use node2x6x2b.Perf.Ring.{hitm_sample_type, Mapping, done, start, perf_mmap_read}
use node2x6x2b.Perf.Records.{Kind, events, visit_sample, walk-Laid}
use node2x6x2b.Perf.Progress.{Visits, here, onward, IsSized, walk-finishes}
use node2x6x2b.Perf.Tables.{HasStored, walk-HasStored}
use node2x6x2b.Perf.Whole.{copied, perf_mmap_read-Laid}
use node2x6x2b.Tests.Scene.{kernel, blank}

-- The header's `type` in its first byte and its `size` in the seventh; type 9 is a sample.
abbrev abi : PerfAbi
abi = record {
  event_type = λ bytes at. if bytes at == 9 then EventType.sample else EventType.other;
  event_size = λ bytes at. bytes (at + 6);
  branch_entry_size = 24;
}

abbrev machines : ℕ → Machine
machines n = record { kernel = kernel; uninit = 0 }

-- One sample of 64 bytes in a ring of 128.
abbrev one_sample : Mapping
one_sample = record {
  data_head = 64;
  ring = λ i. if i == 0 then 9 else (if i == 6 then 64 else 0);
  readable = 128;
}

abbrev kinds : List Kind
kinds = Kind.sample ∷ []

abbrev buffer : Buffer
buffer = copied abi 128 machines one_sample 1 0

ring_run :
    (g : Globals) × (store_all (events abi machines buffer 64 kinds 0 0) (initialize blank)
      ≡ some g)
    × Inv g (recorded (events abi machines buffer 64 kinds 0 0) [])
unfolding events
ring_run =
    store_all_few (events abi machines buffer 64 kinds 0 0) (initialize blank) []
      (initialize-Inv blank refl) (omega arith)

perf_mmap_read-Laid_example :
    perf_mmap_read abi 128 machines hitm_sample_type (some one_sample) 1 0 (initialize blank)
    ≡ done ring_run.0 64
perf_mmap_read-Laid_example =
    perf_mmap_read-Laid abi 128 machines one_sample 1 0 kinds (initialize blank) ring_run.0
      (omega arith) (omega arith) (omega arith) (omega arith) ((refl, refl), tt, refl) ring_run.1

-- The walk over that buffer, from empty tables on.
ring_walk :
    (s : State) × (walk abi hitm_sample_type machines buffer 66 64
        (start abi 128 machines (initialize blank))
      ≡ finished s)
    × (s.count ≡ 1)
    × (s.globals ≡ ring_run.0)
unfolding events
ring_walk =
    walk-Laid abi machines buffer 64 kinds 66 (start abi 128 machines (initialize blank)) ring_run.0
      ((refl, refl), tt, refl) (omega arith) (omega arith) (omega arith) ring_run.1

walk-HasStored_example : HasStored [] 0 ring_walk.0.count ring_walk.0.globals
walk-HasStored_example =
    walk-HasStored abi hitm_sample_type machines buffer [] 0 66 64
      (start abi 128 machines (initialize blank)) ring_walk.0 ([], initialize-Inv blank refl, refl)
      ring_walk.1

-- The first record is the sample, behind which the walk is at its end.
ring_start-IsSized :
    IsSized abi hitm_sample_type machines buffer 64 (start abi 128 machines (initialize blank))
unfolding events store_all
ring_start-IsSized t here lt = omega arith
ring_start-IsSized t (onward s s' lt good v) more =
    let (g, stored, e) =
      >>=-eq-some (store_sample kernel 0 (sample_at buffer 0) (initialize blank)) (store_all [])
        ring_run.1 in
    let after = visit_sample abi machines buffer 64 s g (refl, refl) (omega arith) stored in
    let over : 64 ≤ s'.offset = ground (arith, after, good) in absurd (behind v over)
  where
    behind : {s' : State} → Visits abi hitm_sample_type machines buffer 64 t s' → 64 ≤ s'.offset → ⊥
    behind here over = omega arith
    behind (onward s s' lt good v) over = omega arith

walk-finishes_example :
    walk abi hitm_sample_type machines buffer 66 64 (start abi 128 machines (initialize blank))
    ≢ unfinished
walk-finishes_example =
    walk-finishes abi hitm_sample_type machines buffer 64 64
      (start abi 128 machines (initialize blank)) ring_start-IsSized (omega arith)
