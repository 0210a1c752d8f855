-- ===== src/Detector/Threshold.antt =====
-- When `count_events` returns 1.
use node2x6x2b.Base.{
  ℕ, zero, suc, ◌+◌, ◌≤◌, ◌<◌, ◌≡◌, refl, arith, true, false, some, List, [], ◌∷◌, if◌then◌else◌,
}
use native.Mathlib.Decide.{dec_lt}
use node2x6x2b.Detector.{cores, PerfKernel, open_loop, is_above, threshold_loop, count_events}

module _ (k : PerfKernel) (fd_of : ℕ → ℕ) where
  -- The descriptors from core `i` on.
  abbrev pub descriptors : ℕ → ℕ → List ℕ
  descriptors zero i = []
  descriptors (suc left) i = fd_of i ∷ descriptors left (i + 1)

  pub open_loop-descriptors :
      (left i : ℕ)
      → ((j : ℕ) → j < i + left → k.perf_event_open j ≡ some (fd_of j))
      → open_loop k left i ≡ some (descriptors left i)
  unfolding open_loop
  open_loop-descriptors zero i opens = refl
  open_loop-descriptors (suc left) i opens =
      rw (opens i (omega arith), open_loop-descriptors left (i + 1) (λ j lt. opens j (omega arith)))
        refl

  stays_one : (fds : List ℕ) → threshold_loop k fds 1 ≡ 1
  unfolding threshold_loop
  stays_one [] = refl
  stays_one (fd ∷ fds) = ground (arith, stays_one fds)

  finds :
      (left i j ret : ℕ)
      → i ≤ j
      → j < i + left
      → is_above (k.read_count (fd_of j)) ≡ true
      → threshold_loop k (descriptors left i) ret ≡ 1
  unfolding threshold_loop
  finds zero i j ret p q above = absurd (omega arith)
  finds (suc left) i j ret p q above = elim (dec_lt i j) [
    | yes later ↦
        finds left (i + 1) j (if is_above (k.read_count (fd_of i)) then 1 else ret) (omega arith)
          (omega arith) above
    | no now ↦
        let here : j ≡ i = omega arith in
        let test : is_above (k.read_count (fd_of i)) ≡ true = rw (← here) above in
        rw (threshold_loop, test) (stays_one (descriptors left (i + 1)))
  ]

  finds_none :
      (left i : ℕ)
      → ((j : ℕ) → j < i + left → is_above (k.read_count (fd_of j)) ≡ false)
      → threshold_loop k (descriptors left i) 0 ≡ 0
  unfolding threshold_loop
  finds_none zero i below = refl
  finds_none (suc left) i below =
      rw (threshold_loop, below i (omega arith))
        (finds_none left (i + 1) (λ j lt. below j (omega arith)))

  -- Where all events can be opened and one core's count is above the threshold, the result is 1.
  count_events-above :
      (j : ℕ)
      → ((i : ℕ) → i < cores → k.perf_event_open i ≡ some (fd_of i))
      → j < cores
      → is_above (k.read_count (fd_of j)) ≡ true
      → count_events k ≡ some 1
  unfolding count_events
  count_events-above j opens lt above =
      rw
        (
          open_loop-descriptors cores 0 (λ i p. opens i (omega arith)),
          finds cores 0 j 0 (omega arith) (omega arith) above,
        )
        refl

  -- Where all events can be opened and no core's count is above the threshold, the result is 0.
  count_events-below :
      ((i : ℕ) → i < cores → k.perf_event_open i ≡ some (fd_of i))
      → ((i : ℕ) → i < cores → is_above (k.read_count (fd_of i)) ≡ false)
      → count_events k ≡ some 0
  unfolding count_events
  count_events-below opens below =
      rw
        (
          open_loop-descriptors cores 0 (λ i p. opens i (omega arith)),
          finds_none cores 0 (λ i p. below i (omega arith)),
        )
        refl
