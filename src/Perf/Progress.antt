-- ===== src/Perf/Progress.antt =====
-- The walk ends, for buffers whose records all have a size, and so does `perf_mmap_read`.
use node2x6x2b.Base.{
  ℕ, zero, suc, ◌+◌, ◌≤◌, ◌<◌, ◌≡◌, ◌≢◌, arith, Bool, true, false, Option, none, some, List, [],
  ◌∷◌, All, leb, ◌>>=◌, Option-cases, Bool-cases, >>=-eq-some, inl, inr,
}
use native.Mathlib.Decide.{dec_lt}
use native.Mathlib.Nat.{le_trans}
use node2x6x2b.Samples.{store_sample}
use node2x6x2b.Perf.Abi.{PerfAbi, EventType, SampleFlag}
use node2x6x2b.Perf.Fields
use node2x6x2b.Perf.Fields.{
  Buffer, Fields, when, no_fields, skip_items, raw_items, sample_fields, copy_int, copy_long,
  rounds, in_order,
}
use node2x6x2b.Perf.Walk.{
  Machine, State, finished, fault, unfinished, throttled, sampled, by_type, advance, sample_of,
  visit, walk,
}

-- A step on the fields never moves back.
abbrev Grows : (Fields → Option Fields) → Type 0
Grows step = (f f' : Fields) → step f ≡ some f' → f.offset ≤ f'.offset

when-Grows : (c : Bool) (step : Fields → Option Fields) → Grows step → Grows (when c step)
when-Grows true step h = h
when-Grows false step h = λ f f' e. ground arith

module _ (b : Buffer) where
  skip_items-le : (w left at at' : ℕ) → skip_items b w left at ≡ some at' → at ≤ at'
  unfolding skip_items
  skip_items-le w zero at at' e = ground arith
  skip_items-le w (suc left) at at' e = ground (arith, skip_items-le w left (at + w) at')

  raw_items-le : (size left at at' : ℕ) → raw_items b size left at ≡ some at' → at ≤ at'
  unfolding raw_items
  raw_items-le size zero at at' e = ground arith
  raw_items-le size (suc left) at at' e = ground (arith, raw_items-le size left (at + 1) at')

  ip-Grows : Grows (Fields.ip_field b)
  unfolding Fields.ip_field
  ip-Grows f f' e = ground arith

  tid-Grows : Grows (Fields.tid_field b)
  unfolding Fields.tid_field
  tid-Grows f f' e = ground arith

  time-Grows : Grows (Fields.time_field b)
  unfolding Fields.time_field
  time-Grows f f' e = ground arith

  addr-Grows : Grows (Fields.addr_field b)
  unfolding Fields.addr_field
  addr-Grows f f' e = ground arith

  id-Grows : Grows (Fields.id_field b)
  unfolding Fields.id_field
  id-Grows f f' e = ground arith

  stream_id-Grows : Grows (Fields.stream_id_field b)
  unfolding Fields.stream_id_field
  stream_id-Grows f f' e = ground arith

  cpu-Grows : Grows (Fields.cpu_field b)
  unfolding Fields.cpu_field
  cpu-Grows f f' e = ground arith

  period-Grows : Grows (Fields.period_field b)
  unfolding Fields.period_field
  period-Grows f f' e = ground arith

  regs_user-Grows : Grows (Fields.regs_user_field b)
  unfolding Fields.regs_user_field
  regs_user-Grows f f' e = ground arith

  weight-Grows : Grows (Fields.weight_field b)
  unfolding Fields.weight_field
  weight-Grows f f' e = ground arith

  data_src-Grows : Grows (Fields.data_src_field b)
  unfolding Fields.data_src_field
  data_src-Grows f f' e = ground arith

  callchain-Grows : Grows (Fields.callchain_field b)
  unfolding Fields.callchain_field
  callchain-Grows f f' e =
      let (nr, r, e1) =
        >>=-eq-some (copy_long b f.offset)
          (λ nr.
            skip_items b 8 (rounds 63 nr) (f.offset + 8) >>= λ at. some (record f { offset = at }))
          e in
      let (at, items, e2) =
        >>=-eq-some (skip_items b 8 (rounds 63 nr) (f.offset + 8))
          (λ at. some (record f { offset = at })) e1 in
      ground (arith, skip_items-le 8 (rounds 63 nr) (f.offset + 8) at items)

  raw-Grows : Grows (Fields.raw_field b)
  unfolding Fields.raw_field
  raw-Grows f f' e =
      let (n, r, e1) =
        >>=-eq-some (copy_int b f.offset)
          (λ n. raw_items b (rounds 31 n) (rounds 31 n) (f.offset + 4) >>= λ at.
            some (record f { offset = at }))
          e in
      let (at, items, e2) =
        >>=-eq-some (raw_items b (rounds 31 n) (rounds 31 n) (f.offset + 4))
          (λ at. some (record f { offset = at })) e1 in
      ground (arith, raw_items-le (rounds 31 n) (rounds 31 n) (f.offset + 4) at items)

  branch_stack-Grows : (abi : PerfAbi) → Grows (Fields.branch_stack_field b abi)
  unfolding Fields.branch_stack_field
  branch_stack-Grows abi f f' e =
      let w = abi.branch_entry_size in
      let (n, r, e1) =
        >>=-eq-some (copy_long b f.offset)
          (λ n.
            skip_items b w (rounds 63 n) (f.offset + 8) >>= λ at. some (record f { offset = at }))
          e in
      let (at, items, e2) =
        >>=-eq-some (skip_items b w (rounds 63 n) (f.offset + 8))
          (λ at. some (record f { offset = at })) e1 in
      ground (arith, skip_items-le w (rounds 63 n) (f.offset + 8) at items)

  stack_user-Grows : Grows (Fields.stack_user_field b)
  unfolding Fields.stack_user_field
  stack_user-Grows f f' e =
      let last = λ (at : ℕ). copy_long b at >>= λ d. some (record f { offset = at + 8 }) in
      let (n, r, e1) =
        >>=-eq-some (copy_long b f.offset)
          (λ n. skip_items b 1 (rounds 63 n) (f.offset + 8) >>= last) e in
      let (at, items, e2) = >>=-eq-some (skip_items b 1 (rounds 63 n) (f.offset + 8)) last e1 in
      let (d, copied, e3) =
        >>=-eq-some (copy_long b at) (λ d. some (record f { offset = at + 8 })) e2 in
      ground (arith, skip_items-le 1 (rounds 63 n) (f.offset + 8) at items)

  in_order-Grows :
      (steps : List (Fields → Option Fields)) → All Grows steps → Grows (in_order steps)
  in_order-Grows [] h f f' e = ground arith
  in_order-Grows (step ∷ steps) h f f' e =
      let (f1, now, later) = >>=-eq-some (step f) (in_order steps) e in
      le_trans (h.0 f f1 now) (in_order-Grows steps h.1 f1 f' later)

  sample_fields-le :
      (abi : PerfAbi) (st : SampleFlag → Bool) (at : ℕ) (f' : Fields)
      → sample_fields b abi st at ≡ some f'
      → at ≤ f'.offset
  unfolding sample_fields
  sample_fields-le abi st at f' =
      in_order-Grows (Fields.field_blocks b abi st)
        (
          when-Grows _ _ ip-Grows,
          (
            when-Grows _ _ tid-Grows,
            (
              when-Grows _ _ time-Grows,
              (
                when-Grows _ _ addr-Grows,
                (
                  when-Grows _ _ id-Grows,
                  (
                    when-Grows _ _ stream_id-Grows,
                    (
                      when-Grows _ _ cpu-Grows,
                      (
                        when-Grows _ _ period-Grows,
                        (
                          when-Grows _ _ callchain-Grows,
                          (
                            when-Grows _ _ raw-Grows,
                            (
                              when-Grows _ _ (branch_stack-Grows abi),
                              (
                                when-Grows _ _ regs_user-Grows,
                                (
                                  when-Grows _ _ stack_user-Grows,
                                  (
                                    when-Grows _ _ weight-Grows,
                                    (when-Grows _ _ data_src-Grows, tt),
                                  ),
                                ),
                              ),
                            ),
                          ),
                        ),
                      ),
                    ),
                  ),
                ),
              ),
            ),
          ),
        )
        (no_fields at) f'

module _ (abi : PerfAbi) (st : SampleFlag → Bool) (machines : ℕ → Machine) (b : Buffer) where
  sampled-le :
      (s s' : State)
      → sampled abi st machines b s ≡ some s'
      → (s.offset ≤ s'.offset) × (s'.loffset ≡ s.loffset)
  unfolding sampled
  sampled-le s s' e =
      let store = λ (f : Fields).
        store_sample (machines s.count).kernel (machines s.count).uninit
          (sample_of abi st machines b f) s.globals
        >>= λ g. some (record s { offset = f.offset; count = s.count + 1; globals = g }) in
      let (f, fields, e1) = >>=-eq-some (sample_fields b abi st s.offset) store e in
      let (g, stored, e2) =
        >>=-eq-some
          (store_sample (machines s.count).kernel (machines s.count).uninit
            (sample_of abi st machines b f) s.globals)
          (λ g. some (record s { offset = f.offset; count = s.count + 1; globals = g })) e1 in
      ground (arith, sample_fields-le b abi st s.offset f fields)

  throttled-le :
      (s s' : State)
      → throttled abi st machines b s ≡ some s'
      → (s.offset ≤ s'.offset) × (s'.loffset ≡ s.loffset)
  unfolding throttled
  throttled-le s s' e = ground arith

  by_type-le :
      (t : EventType) (s s' : State)
      → by_type abi st machines b t s ≡ some s'
      → (s.offset ≤ s'.offset) × (s'.loffset ≡ s.loffset)
  by_type-le EventType.sample s s' e = sampled-le s s' e
  by_type-le EventType.throttle s s' e = throttled-le s s' e
  by_type-le EventType.unthrottle s s' e = throttled-le s s' e
  by_type-le _ s s' e = ground arith

  -- A round moves the header on by the record's size, and leaves `offset` behind the old header.
  visit-le :
      (s s' : State)
      → visit abi st machines b s ≡ some s'
      → (s.loffset + 8 ≤ s'.offset) × (s'.loffset ≡ s.loffset + abi.event_size b.bytes s.loffset)
  unfolding visit
  visit-le s s' e = elim (Bool-cases (leb (s.loffset + 8) b.bytesize)) [
    | inl inside ↦
        let s0 : State = record s { offset = s.loffset + 8 } in
        let (s1, body, e1) =
          >>=-eq-some (by_type abi st machines b (abi.event_type b.bytes s.loffset) s0)
            (advance abi st machines b (abi.event_size b.bytes s.loffset)) (rw inside at e) in
        ground (arith, by_type-le (abi.event_type b.bytes s.loffset) s0 s1 body)
    | inr outside ↦ cc (rw outside at e)
  ]

  -- One round of the loop, for each thing that can happen.
  pub walk-stops :
      (rounds size : ℕ) (s : State)
      → size ≤ s.offset
      → walk abi st machines b (suc rounds) size s ≡ finished s
  unfolding walk
  walk-stops rounds size s h = ground arith

  pub walk-faults :
      (rounds size : ℕ) (s : State)
      → s.offset < size
      → visit abi st machines b s ≡ none
      → walk abi st machines b (suc rounds) size s ≡ fault
  unfolding walk
  walk-faults rounds size s h e = rw e (ground arith)

  pub walk-goes :
      (rounds size : ℕ) (s s' : State)
      → s.offset < size
      → visit abi st machines b s ≡ some s'
      → walk abi st machines b (suc rounds) size s ≡ walk abi st machines b rounds size s'
  unfolding walk
  walk-goes rounds size s s' h e = rw e (ground arith)

  -- The states that the walk comes to from one; the last one is `t`.
  pub data Visits (size : ℕ) (t : State) : State → Type 0 where
    here : Visits size t t
    onward :
        (s s' : State)
        → s.offset < size
        → visit abi st machines b s ≡ some s'
        → Visits size t s'
        → Visits size t s

  -- Each record that the walk comes to has a size.
  abbrev pub IsSized : ℕ → State → Type 0
  IsSized size s =
      (t : State) → Visits size t s → t.offset < size → 0 < abi.event_size b.bytes t.loffset

  stops_or_goes :
      (rounds size : ℕ) (s : State)
      → ((s' : State)
          → s.offset < size
          → visit abi st machines b s ≡ some s'
          → walk abi st machines b rounds size s' ≢ unfinished)
      → walk abi st machines b (suc rounds) size s ≢ unfinished
  stops_or_goes rounds size s after = elim (dec_lt s.offset size) [
    | no done ↦ rw (walk-stops rounds size s (omega arith)) (λ e. cc)
    | yes more ↦ elim (Option-cases (visit abi st machines b s)) [
      | inl bad ↦ rw (walk-faults rounds size s more bad) (λ e. cc)
      | inr (s', good) ↦ rw (walk-goes rounds size s s' more good) (after s' more good)
    ]
  ]

  -- Where each record that the walk comes to has a size, `rounds + 2` rounds end the walk, if they would carry the
  -- header from where it is to `size`.
  pub walk-finishes :
      (rounds size : ℕ) (s : State)
      → IsSized size s
      → size ≤ rounds + s.loffset
      → walk abi st machines b (suc (suc rounds)) size s ≢ unfinished
  walk-finishes zero size s sized h =
      stops_or_goes (suc zero) size s
        (λ s' more good. rw (walk-stops zero size s' (omega (arith, visit-le s s' good))) (λ e. cc))
  walk-finishes (suc rounds) size s sized h =
      stops_or_goes (suc (suc rounds)) size s (λ s' more good.
        walk-finishes rounds size s' (λ t v. sized t (onward s s' more good v))
          (omega (arith, visit-le s s' good, sized s here more)))
