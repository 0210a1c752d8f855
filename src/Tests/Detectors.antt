-- ===== src/Tests/Detectors.antt =====
-- `count_events`, `sample` and `main` on a concrete kernel.
use node2x6x2b.Base.{arith, ℕ, ◌+◌, ◌*◌, ◌≡◌, refl, some, ◌==◌, if◌then◌else◌}
use node2x6x2b.Samples.{initialize}
use node2x6x2b.Perf.Abi.{PerfAbi, EventType}
use node2x6x2b.Perf.Walk.{Machine}
use node2x6x2b.Perf.Ring.{Mapping, perf_mmap_read}
use node2x6x2b.Report.{display_sample, check_intersection}
use node2x6x2b.Detector.{
  PerfKernel, open_loop, threshold_loop, is_above, count_events, Sampled, sample_loop, sample,
  Report, Outcome, main,
}
use node2x6x2b.Detector.Runs.{sample-crashes}
use node2x6x2b.Tests.Scene.{kernel, blank}

abbrev abi : PerfAbi
abi = record {
  event_type = λ bytes at. if bytes at == 9 then EventType.sample else EventType.other;
  event_size = λ bytes at. bytes (at + 6);
  branch_entry_size = 24;
}

abbrev machines : ℕ → ℕ → Machine
machines i n = record { kernel = kernel; uninit = 0 }

abbrev ring_of : ℕ → Mapping
ring_of head = record { data_head = head; ring = λ i. 16; readable = 64 * 4096 }

-- Core 3 counts more events than the threshold, and no ring holds a record.
abbrev busy : PerfKernel
busy = record {
  perf_event_open = λ i. some (i + 3);
  read_count = λ fd. if fd == 6 then 3000000 else 5;
  mmap = λ fd. some (ring_of 0);
}

-- No core counts as many, and each ring holds a record.
abbrev calm : PerfKernel
calm = record {
  perf_event_open = λ i. some (i + 3);
  read_count = λ fd. 5;
  mmap = λ fd. some (ring_of 16);
}

sample-crashes_example : sample abi 4096 machines calm (initialize blank) ≡ Sampled.crashes
sample-crashes_example =
    sample-crashes abi 4096 machines calm (λ i. i + 3) (initialize blank) (ring_of 16)
      (λ i lt. refl) refl (omega arith) refl (omega arith) (omega arith)

sampled_nothing :
    sample abi 4096 machines busy (initialize blank) ≡ Sampled.sampled (initialize blank)
unfolding sample open_loop sample_loop perf_mmap_read
sampled_nothing = refl

abbrev report : Report
report = record {
  samples = display_sample (initialize blank);
  intersection = check_intersection (initialize blank);
}

reported : main abi 4096 machines busy busy blank ≡ Outcome.reports report
unfolding main count_events threshold_loop is_above open_loop sample sample_loop perf_mmap_read
reported = refl
