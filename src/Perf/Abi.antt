-- ===== src/Perf/Abi.antt =====
-- What the walk needs of linux/perf_event.h, which is not part of the repository.
use node2x6x2b.Base.{ℕ}

-- The record types that the program names.
pub data EventType : Type 0 where
  mmap lost comm exit throttle unthrottle fork read sample mmap2 other : EventType

-- The bits of `sample_type` that the program names.
pub data SampleFlag : Type 0 where
  ip tid time addr id stream_id cpu period callchain raw branch_stack regs_user stack_user weight
        data_src :
      SampleFlag

-- `event_type bytes at` and `event_size bytes at` are `type` and `size` of the
-- `struct perf_event_header` at a position; the last field is `sizeof(struct perf_branch_entry)`.
pub record PerfAbi : Type 0 where
  pub event_type : (ℕ → ℕ) → ℕ → EventType
  pub event_size : (ℕ → ℕ) → ℕ → ℕ
  pub branch_entry_size : ℕ
