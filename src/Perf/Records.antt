-- ===== src/Perf/Records.antt =====
-- The walk over a buffer that holds whole records: every sample is stored, in order, and nothing else.
use node2x6x2b.Base.{
  ℕ, zero, suc, ◌+◌, ◌≤◌, ◌<◌, ◌≡◌, ◌⊎◌, refl, ◌∙◌, arith, true, some, List, [], ◌∷◌, leb, length,
  Option-cases, inl, inr,
}
use node2x6x2b.Samples.{Globals, store_sample}
use node2x6x2b.Samples.Runs.{Event, store_all}
use node2x6x2b.Perf.Abi.{PerfAbi, EventType}
use node2x6x2b.Perf.Fields.{Buffer}
use node2x6x2b.Perf.Layout.{sample_at, sample_fields-hitm, sample_of-fields_at, copy_long-inside}
use node2x6x2b.Perf.Walk.{Machine, State, finished, throttled, sampled, by_type, visit, walk}
use node2x6x2b.Perf.Progress.{walk-goes, walk-stops}
use node2x6x2b.Perf.Ring.{hitm_sample_type}

-- The records by what the walk does with them; `plain n` has `n` bytes and is passed over.
pub data Kind : Type 0 where
  sample throttle : Kind
  plain : ℕ → Kind

abbrev pub width : Kind → ℕ
width sample = 64
width throttle = 32
width (plain n) = n

abbrev pub IsPlain : EventType → Type 0
IsPlain EventType.sample = ⊥
IsPlain EventType.throttle = ⊥
IsPlain EventType.unthrottle = ⊥
IsPlain _ = Unit

-- The last record of a buffer is read to its end: of a longer one that is passed over the walk reads the header only,
-- and then goes on behind it.
abbrev IsWhole : Kind → List Kind → Type 0
IsWhole (plain n) [] = n ≡ 8
IsWhole _ _ = Unit

module _ (abi : PerfAbi) (machines : ℕ → Machine) (b : Buffer) (size : ℕ) where
  abbrev pub IsAt : Kind → ℕ → Type 0
  IsAt sample pos =
      (abi.event_type b.bytes pos ≡ EventType.sample) × (abi.event_size b.bytes pos ≡ 64)
  IsAt throttle pos =
      ((abi.event_type b.bytes pos ≡ EventType.throttle)
        ⊎ (abi.event_type b.bytes pos ≡ EventType.unthrottle))
      × (abi.event_size b.bytes pos ≡ 32)
  IsAt (plain n) pos =
      IsPlain (abi.event_type b.bytes pos) × (abi.event_size b.bytes pos ≡ n) × (8 ≤ n)

  -- From `pos` to `size` the buffer holds these records, one behind the other.
  abbrev pub Laid : List Kind → ℕ → Type 0
  Laid [] pos = pos ≡ size
  Laid (k ∷ ks) pos = IsAt k pos × IsWhole k ks × Laid ks (pos + width k)

  -- The samples among them, with the machine of each.
  unfoldable pub events : List Kind → ℕ → ℕ → List Event
  events [] pos count = []
  events (sample ∷ ks) pos count =
      record {
        kernel = (machines count).kernel;
        uninit = (machines count).uninit;
        sample = sample_at b pos;
      }
      ∷ events ks (pos + 64) (count + 1)
  events (throttle ∷ ks) pos count = events ks (pos + 32) count
  events (plain n ∷ ks) pos count = events ks (pos + n) count

  pub visit_sample :
      (s : State) (g : Globals)
      → IsAt sample s.loffset
      → s.loffset + 64 ≤ b.bytesize
      → store_sample
          (machines s.count).kernel
          (machines s.count).uninit
          (sample_at b s.loffset)
          s.globals
        ≡ some g
      → visit abi hitm_sample_type machines b s
        ≡ some (record {
          offset = s.loffset + 64;
          loffset = s.loffset + 64;
          count = s.count + 1;
          globals = g;
        })
  unfolding visit sampled
  visit_sample s g at fits stored =
      let header : leb (s.loffset + 8) b.bytesize ≡ true = ground arith in
      let end : s.loffset + 8 + 8 + 8 + 8 + 8 + 8 + 8 + 8 ≡ s.loffset + 64 = omega arith in
      rw (
        header,
        at.0,
        sample_fields-hitm b abi s.loffset fits,
        sample_of-fields_at b s.loffset,
        stored,
        at.1,
        end,
      )

  throttled-inside :
      (s : State)
      → s.offset + 24 ≤ b.bytesize
      → throttled abi hitm_sample_type machines b s ≡ some (record s { offset = s.offset + 24 })
  unfolding throttled
  throttled-inside s fits = rw (
    copy_long-inside b s.offset (omega arith),
    copy_long-inside b (s.offset + 8) (omega arith),
    copy_long-inside b (s.offset + 16) (omega arith),
  )

  by_type-plain :
      (t : EventType) (s : State) → IsPlain t → by_type abi hitm_sample_type machines b t s ≡ some s
  by_type-plain EventType.sample s h = elim h [ ]
  by_type-plain EventType.throttle s h = elim h [ ]
  by_type-plain EventType.unthrottle s h = elim h [ ]
  by_type-plain _ s h = refl

  visit_throttle :
      (s : State)
      → IsAt throttle s.loffset
      → s.loffset + 32 ≤ b.bytesize
      → visit abi hitm_sample_type machines b s
        ≡ some (record s { offset = s.loffset + 32; loffset = s.loffset + 32 })
  unfolding visit
  visit_throttle s at fits =
      let header : leb (s.loffset + 8) b.bytesize ≡ true = ground arith in
      let body = throttled-inside (record s { offset = s.loffset + 8 }) (omega arith) in
      let end : s.loffset + 8 + 24 ≡ s.loffset + 32 = omega arith in
      elim at.0 [
        | inl t ↦ rw (header, t, body, at.1, end)
        | inr t ↦ rw (header, t, body, at.1, end)
      ]

  pub visit_plain :
      (s : State) (n : ℕ)
      → IsAt (plain n) s.loffset
      → s.loffset + 8 ≤ b.bytesize
      → visit abi hitm_sample_type machines b s
        ≡ some (record s { offset = s.loffset + 8; loffset = s.loffset + n })
  unfolding visit
  visit_plain s n at fits =
      let header : leb (s.loffset + 8) b.bytesize ≡ true = ground arith in
      rw (
        header,
        by_type-plain (abi.event_type b.bytes s.loffset) (record s { offset = s.loffset + 8 }) at.0,
        at.1,
      )

  pub Laid-le : (ks : List Kind) (pos : ℕ) → Laid ks pos → pos ≤ size
  Laid-le [] pos h = omega arith
  Laid-le (k ∷ ks) pos h = omega (arith, Laid-le ks (pos + width k) h.2)

  -- What the loop's test has to say before the records that are left.
  abbrev pub IsReady : List Kind → ℕ → Type 0
  IsReady [] offset = size ≤ offset
  IsReady (k ∷ ks) offset = offset < size

  -- The walk has come to its end with these tables.
  abbrev pub EndsWith : ℕ → State → ℕ → Globals → Type 0
  EndsWith rounds s count g =
      (s' : State) × (walk abi hitm_sample_type machines b rounds size s ≡ finished s')
      × (s'.count ≡ count)
      × (s'.globals ≡ g)

  pub wide : (k : Kind) (pos : ℕ) → IsAt k pos → 8 ≤ width k
  wide sample pos at = omega arith
  wide throttle pos at = omega arith
  wide (plain n) pos at = at.2

  -- After a record that was read to its end the test is right for the rest.
  end-IsReady :
      (k : Kind) (ks : List Kind) (pos : ℕ) → Laid (k ∷ ks) pos → IsReady ks (pos + width k)
  end-IsReady k [] pos laid = omega arith
  end-IsReady k (j ∷ ks) pos laid =
      omega (arith, wide j (pos + width k) laid.2.0, Laid-le ks (pos + width k + width j) laid.2.2)

  -- And after one that was passed over, behind its header.
  header-IsReady :
      (n : ℕ) (ks : List Kind) (pos : ℕ) → Laid (plain n ∷ ks) pos → IsReady ks (pos + 8)
  header-IsReady n [] pos laid = omega arith
  header-IsReady n (j ∷ ks) pos laid = omega (
    arith,
    wide (plain n) pos laid.0,
    wide j (pos + n) laid.2.0,
    Laid-le ks (pos + n + width j) laid.2.2,
  )

  pub walk-Laid :
      (ks : List Kind) (rounds : ℕ) (s : State) (g : Globals)
      → Laid ks s.loffset
      → IsReady ks s.offset
      → size ≤ b.bytesize
      → length ks < rounds
      → store_all (events ks s.loffset s.count) s.globals ≡ some g
      → EndsWith rounds s (s.count + length (events ks s.loffset s.count)) g
  unfolding events store_all
  walk-Laid ks zero s g laid ready fits enough stored = absurd (omega arith)
  walk-Laid [] (suc rounds) s g laid ready fits enough stored =
      (s, walk-stops abi hitm_sample_type machines b rounds size s ready, omega arith, cc)
  walk-Laid (sample ∷ ks) (suc rounds) s g laid ready fits enough stored =
      elim (Option-cases (
        store_sample (machines s.count).kernel (machines s.count).uninit (sample_at b s.loffset)
          s.globals)) [
            | inl bad ↦ cc (rw bad at stored)
            | inr (h, good) ↦
                let in_buffer = Laid-le ks (s.loffset + 64) laid.2 in
                let s1 : State = record {
                  offset = s.loffset + 64;
                  loffset = s.loffset + 64;
                  count = s.count + 1;
                  globals = h;
                } in
                let (s', w, c, e) =
                  walk-Laid ks rounds s1 g laid.2 (end-IsReady sample ks s.loffset laid) fits
                    (omega arith) (rw good at stored) in
                (
                  s',
                  walk-goes abi hitm_sample_type machines b rounds size s s1 ready
                        (visit_sample s h laid.0 (omega arith) good)
                      ∙ w,
                  omega arith,
                  e,
                )
          ]
  walk-Laid (throttle ∷ ks) (suc rounds) s g laid ready fits enough stored =
      let in_buffer = Laid-le ks (s.loffset + 32) laid.2 in
      let s1 : State = record s { offset = s.loffset + 32; loffset = s.loffset + 32 } in
      let (s', w, c, e) =
        walk-Laid ks rounds s1 g laid.2 (end-IsReady throttle ks s.loffset laid) fits (omega arith)
          stored in
      (
        s',
        walk-goes abi hitm_sample_type machines b rounds size s s1 ready
              (visit_throttle s laid.0 (omega arith))
            ∙ w,
        c,
        e,
      )
  walk-Laid (plain n ∷ ks) (suc rounds) s g laid ready fits enough stored =
      let in_buffer = Laid-le ks (s.loffset + n) laid.2 in
      let s1 : State = record s { offset = s.loffset + 8; loffset = s.loffset + n } in
      let (s', w, c, e) =
        walk-Laid ks rounds s1 g laid.2 (header-IsReady n ks s.loffset laid) fits (omega arith)
          stored in
      (
        s',
        walk-goes abi hitm_sample_type machines b rounds size s s1 ready
              (visit_plain s n laid.0 (omega (arith, laid.0.2)))
            ∙ w,
        c,
        e,
      )
