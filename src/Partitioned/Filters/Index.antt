-- ===== src/Partitioned/Filters/Index.antt =====
-- The slots that addresses have, and the filter that `findIndex` finds.
use node2x6x2b.Base.{
  ℕ, zero, suc, ◌+◌, ◌-◌, ◌*◌, ◌%◌, ◌^◌, ◌≤◌, ◌<◌, ◌≡◌, ◌≢◌, refl, ap, ◌∙◌, arith, true, false,
  Bool-cases, Option, none, some, u32, u64, ltb, ◌==◌, inl, inr,
}
use native.Mathlib.Decide.{dec_lt}
use node2x6x2b.Partitioned.Filters.{
  filter_size, max_filters, Bfilter, index_loop, find_index, hashk, slot,
}

-- Where the sum does not wrap, the slot is `6 * addr - 6` modulo `M`.
slot-plain :
    (addr : ℕ)
    → 0 < addr
    → 6 * addr < 2 ^ 63
    → slot addr 0 filter_size ≡ (6 * addr - 6) % filter_size
unfolding slot hashk
slot-plain addr pos small =
    let sum : u64 (6 * addr + (0 * 2 + 0 + 0 % 2) + 2 ^ 64 - 6) ≡ 6 * addr - 6 = omega arith in
    let positive : ltb (6 * addr - 6) (2 ^ 63) ≡ true = ground arith in
    let small_hash : ltb ((6 * addr - 6) % 2000) (2 ^ 31) ≡ true = ground arith in
    let cast : u32 ((6 * addr - 6) % 2000) ≡ (6 * addr - 6) % 2000 = omega arith in
    rw (sum, positive, cast, small_hash) (omega arith)

-- Every slot that is used has an even number: one half of the filter stays clear.
slot_even : (addr : ℕ) → 0 < addr → 6 * addr < 2 ^ 63 → slot addr 0 filter_size % 2 ≡ 0
slot_even addr pos small = rw (slot-plain addr pos small) (omega arith)

pub slot-lt : (addr : ℕ) → 0 < addr → 6 * addr < 2 ^ 63 → slot addr 0 filter_size < filter_size
slot-lt addr pos small = rw (slot-plain addr pos small) (omega arith)

-- The slot of address 0 is negative.
slot-zero : filter_size ≤ slot 0 0 filter_size
unfolding slot hashk
slot-zero = omega arith

abbrev pub IsUnknown : (ℕ → Bfilter) → ℕ → ℕ → Type 0
IsUnknown s used tid = (j : ℕ) → j < used → (s j).thread_id ≢ tid

-- A filter of the thread; or the first free one, for a thread that has none; or none at all.
pub data Found (s : ℕ → Bfilter) (used tid : ℕ) (r : Option ℕ) : Type 0 where
  own : (i : ℕ) → r ≡ some i → i < used → (s i).thread_id ≡ tid → Found s used tid r
  free : r ≡ some used → used < max_filters → IsUnknown s used tid → Found s used tid r
  full : r ≡ none → used ≡ max_filters → IsUnknown s used tid → Found s used tid r

module _ (s : ℕ → Bfilter) (used tid : ℕ) (few : used ≤ max_filters)
    (taken : (i : ℕ) → i < max_filters → (s i).taken ≡ ltb i used) where
  index_loop-Found :
      (left i : ℕ)
      → i + left ≡ max_filters
      → i ≤ used
      → IsUnknown s i tid
      → Found s used tid (index_loop left i s tid)
  unfolding index_loop
  index_loop-Found zero i end le before =
      let last : i ≡ used = omega arith in
      Found.full refl (omega arith) (λ j lt. before j (omega arith))
  index_loop-Found (suc left) i end le before = elim (Bool-cases (ltb i used)) [
    | inl inside ↦
        let is_taken : (s i).taken ≡ true = taken i (omega arith) ∙ inside in
        elim (Bool-cases ((s i).thread_id == tid)) [
          | inl here ↦ Found.own i (rw (is_taken, here)) (ground arith) (ground arith)
          | inr other ↦
              rw (is_taken, other)
                (index_loop-Found left (i + 1) (omega arith) (ground arith) (λ j lt.
                  elim (dec_lt j i) [
                    | yes earlier ↦ before j earlier
                    | no now ↦ let at : j ≡ i = omega arith in rw at (ground arith)
                  ]))
        ]
    | inr behind ↦
        let is_free : (s i).taken ≡ false = taken i (omega arith) ∙ behind in
        let last : i ≡ used = ground arith in
        Found.free (rw is_free (ap some last)) (omega arith) (λ j lt. before j (omega arith))
  ]

  pub find_index-Found : Found s used tid (find_index s tid)
  unfolding find_index
  find_index-Found =
      index_loop-Found max_filters 0 (omega arith) (omega arith) (λ j lt. absurd (omega arith))
