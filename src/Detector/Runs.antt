-- ===== src/Detector/Runs.antt =====
-- Whole runs of `sample` and `main`.
use node2x6x2b.Base.{
  ℕ, ◌+◌, ◌*◌, ◌^◌, ◌<◌, ◌≡◌, refl, arith, Bool-cases, Option, none, some, Option-cases, List, [],
  ◌∷◌, All, ◌==◌, inl, inr,
}
use node2x6x2b.Samples.{Globals, initialize}
use node2x6x2b.Samples.Thread.{initialize-Inv}
use node2x6x2b.Perf.Abi.{PerfAbi}
use node2x6x2b.Perf.Walk.{Machine}
use node2x6x2b.Perf.Ring.{
  hitm_sample_type, Mapping, ReadOut, zero_size, null_page, done, crash, endless,
}
use node2x6x2b.Perf.Tables.{HasTables, perf_mmap_read-HasTables}
use node2x6x2b.Perf.Overrun.{perf_mmap_read_past_mapping}
use node2x6x2b.Report.{check_intersection}
use node2x6x2b.Report.Percent.{IsFine, check_intersection-IsFine}
use node2x6x2b.Detector.Threshold.{open_loop-descriptors}
use node2x6x2b.Detector.{
  cores, page_count, PerfKernel, open_loop, count_events, Sampled, after_read, read_core,
  sample_loop, sample, Report, Outcome, report_on, main,
}

module _ (abi : PerfAbi) (page_size : ℕ) (machines : ℕ → ℕ → Machine) (k : PerfKernel) where
  after_read-HasTables :
      (g g' : Globals) (r : ReadOut) (next : Globals → Sampled)
      → HasTables g
      → ((h : Globals) (tail : ℕ) → r ≡ done h tail → HasTables h)
      → ((h : Globals) → HasTables h → next h ≡ Sampled.sampled g' → HasTables g')
      → after_read abi page_size machines k g r next ≡ Sampled.sampled g'
      → HasTables g'
  after_read-HasTables g g' zero_size next has read go e = go g has e
  after_read-HasTables g g' null_page next has read go e = go g has e
  after_read-HasTables g g' (done h tail) next has read go e = go h (read h tail refl) e
  after_read-HasTables g g' crash next has read go e = cc
  after_read-HasTables g g' endless next has read go e = cc

  read_core-HasTables :
      (i : ℕ) (g h : Globals) (tail : ℕ) (m : Option Mapping)
      → HasTables g
      → read_core abi page_size machines k i g m ≡ done h tail
      → HasTables h
  read_core-HasTables i g h tail none has e = cc
  read_core-HasTables i g h tail (some m) has e =
      perf_mmap_read-HasTables abi page_size (machines i) hitm_sample_type m (page_count + 1) 0 g h
        tail has e

  sample_loop-HasTables :
      (fds : List ℕ) (i : ℕ) (g g' : Globals)
      → HasTables g
      → sample_loop abi page_size machines k fds i g ≡ Sampled.sampled g'
      → HasTables g'
  unfolding sample_loop
  sample_loop-HasTables [] i g g' has e = let same : g ≡ g' = cc in rw (← same) has
  sample_loop-HasTables (fd ∷ fds) i g g' has e =
      after_read-HasTables g g' (read_core abi page_size machines k i g (k.mmap fd)) _ has
        (λ h tail r. read_core-HasTables i g h tail (k.mmap fd) has r)
        (λ h had e'. sample_loop-HasTables fds (i + 1) h g' had e') e

  -- Where `sample` returns, over all cores and whatever is in their buffers, the tables are right, if
  -- they were right before.
  sample-HasTables :
      (g g' : Globals)
      → HasTables g
      → sample abi page_size machines k g ≡ Sampled.sampled g'
      → HasTables g'
  unfolding sample
  sample-HasTables g g' has e = elim (Option-cases (open_loop k cores 0)) [
    | inl bad ↦ cc (rw bad at e)
    | inr (fds, good) ↦ sample_loop-HasTables fds 0 g g' has (rw good at e)
  ]

-- Where the kernel opens an event for each core, maps a ring of `PAGE_COUNT` pages for core 0 and has put a record into
-- it, `sample` reads behind the mapping.
pub sample-crashes :
    (abi : PerfAbi) (page_size : ℕ) (machines : ℕ → ℕ → Machine) (k : PerfKernel) (fd_of : ℕ → ℕ)
    (g : Globals) (m : Mapping)
    → ((i : ℕ) → i < cores → k.perf_event_open i ≡ some (fd_of i))
    → k.mmap (fd_of 0) ≡ some m
    → 0 < page_size
    → m.readable ≡ page_count * page_size
    → 0 < m.data_head
    → m.data_head < 2 ^ 64
    → sample abi page_size machines k g ≡ Sampled.crashes
unfolding sample sample_loop
sample-crashes abi page_size machines k fd_of g m opens mapped pos short new small =
    rw
      (
        open_loop-descriptors k fd_of cores 0 (λ i p. opens i (omega arith)),
        mapped,
        perf_mmap_read_past_mapping abi page_size (machines 0) hitm_sample_type m (page_count + 1) 0
            g (omega arith) new small (omega arith),
      )
      refl

report_on-IsFine :
    (s : Sampled) (r : Report)
    → ((g : Globals) → s ≡ Sampled.sampled g → HasTables g)
    → report_on s ≡ Outcome.reports r
    → All IsFine r.intersection
report_on-IsFine (Sampled.sampled g) r has e =
    let (stored, inv) = has g refl in
    let same : r.intersection ≡ check_intersection g = cc in
    rw same (check_intersection-IsFine g stored inv)
report_on-IsFine Sampled.exits r has e = cc
report_on-IsFine Sampled.crashes r has e = cc
report_on-IsFine Sampled.hangs r has e = cc

-- Every report of `main`, from an empty thread table on and whatever the kernel answers, has only rows
-- with positive divisors and shares of at most 100 percent.
main-IsFine :
    (abi : PerfAbi) (page_size : ℕ) (machines : ℕ → ℕ → Machine) (counting sampling : PerfKernel)
    (g : Globals) (r : Report)
    → g.thread_index ≡ 0
    → main abi page_size machines counting sampling g ≡ Outcome.reports r
    → All IsFine r.intersection
unfolding main
main-IsFine abi page_size machines counting sampling g r empty e =
    elim (Option-cases (count_events counting)) [
      | inl bad ↦ cc (rw bad at e)
      | inr (ret, good) ↦ elim (Bool-cases (ret == 0)) [
        | inl below ↦ cc (rw (good, below) at e)
        | inr above ↦
            report_on-IsFine (sample abi page_size machines sampling (initialize g)) r
              (λ h done.
                sample-HasTables abi page_size machines sampling (initialize g) h
                  ([], initialize-Inv g empty) done)
              (rw (good, above) at e)
      ]
    ]
