-- ===== src/Chain/Order.antt =====
-- Values keep their order along the chain.
use node2x6x2b.Base.{
  ℕ, ◌+◌, ◌≤◌, ◌≡◌, ◌⊎◌, refl, sym, ap, ◌∙◌, arith, true, false, Bool-cases, Option, none, some,
  List, [], ◌∷◌, ◌++◌, length, append_assoc, ◌==◌, update, inl, inr,
}
use native.Mathlib.Decide.{dec_lt}
use node2x6x2b.Circular.{BufferStruct, initialize_buffer, insert_into_buffer, delete_from_buffer}
use node2x6x2b.Circular.Window.{
  Holds, insert_into_buffer-Holds, insert_into_buffer-full, delete_from_buffer-empty,
  delete_from_buffer-Holds,
}
use node2x6x2b.Chain.{
  chain_max, Thread, Chain, create_threads, produce, taken, take, given, give, Step, produces,
  takes, gives, Reach, starts, goes,
}

abbrev pub value_list : Option ℕ → List ℕ
value_list none = []
value_list (some v) = v ∷ []

-- What the thread before the buffer has put into it is what the thread behind it has passed on, then what
-- that thread holds, then what the buffer holds.
abbrev Link : BufferStruct → Thread → Thread → Type 0
Link b t u = (xs : List ℕ) × Holds chain_max b xs × (t.log ≡ u.log ++ (value_list u.held ++ xs))

abbrev Linked : Chain → Type 0
Linked s = (i : ℕ) → Link (s.buffers i) (s.threads i) (s.threads (i + 1))

create_threads-Linked : (garbage : ℕ → BufferStruct) → Linked (create_threads garbage)
unfolding create_threads initialize_buffer
create_threads-Linked garbage i = ([], (refl, refl), refl)

Holds-few : (b : BufferStruct) (xs : List ℕ) → Holds chain_max b xs → length xs ≤ chain_max
Holds-few b [] h = omega arith
Holds-few b (x ∷ xs) h = h.few

same_or_other : (j i : ℕ) → (j ≡ i) ⊎ ((j == i) ≡ false)
same_or_other j i = elim (Bool-cases (j == i)) [
  | inl same ↦ inl (ground arith)
  | inr other ↦ inr other
]

same-true : (i : ℕ) → (i == i) ≡ true
same-true i = ground arith

later-false : (i : ℕ) → (i + 1 == i) ≡ false
later-false i = ground arith

earlier-false : (i : ℕ) → (i == i + 1) ≡ false
earlier-false i = ground arith

next-false : (j i : ℕ) → (j == i) ≡ false → (j + 1 == i + 1) ≡ false
next-false j i h = ground arith

module _ (s : Chain) (linked : Linked s) where
  produce-Linked : (value : ℕ) → Linked (produce value s)
  unfolding produce
  produce-Linked value i = elim (Bool-cases (i == 0)) [
    | inl first ↦ let at : i ≡ 0 = ground arith in rw at (linked 0)
    | inr later ↦ let after : (i + 1 == 0) ≡ false = ground arith in rw (later, after) (linked i)
  ]

  -- A value goes from buffer `i` to the thread behind it.
  taken-Linked :
      (i value : ℕ) (b : BufferStruct) (xs : List ℕ)
      → Holds chain_max b xs
      → (s.threads i).log ≡ (s.threads (i + 1)).log ++ (value ∷ xs)
      → Linked (taken i s b (some value))
  taken-Linked i value b xs h e j = elim (same_or_other j i) [
    | inl at ↦ rw (at, same-true i, earlier-false i, same-true (i + 1)) (xs, h, e)
    | inr other ↦ elim (same_or_other j (i + 1)) [
      | inl at ↦ rw (at, later-false i, same-true (i + 1), later-false (i + 1)) (linked (i + 1))
      | inr other' ↦ rw (other, other', next-false j i other) (linked j)
    ]
  ]

  -- Where a buffer is stored as it was, nothing changes.
  unchanged :
      (i j : ℕ) → Link (update s.buffers i (s.buffers i) j) (s.threads j) (s.threads (j + 1))
  unchanged i j = elim (same_or_other j i) [
    | inl at ↦ rw (at, same-true i) (linked i)
    | inr other ↦ rw other (linked j)
  ]

  take_out :
      (i : ℕ) (xs : List ℕ)
      → (s.threads (i + 1)).held ≡ none
      → Holds chain_max (s.buffers i) xs
      → (s.threads i).log ≡ (s.threads (i + 1)).log ++ (value_list (s.threads (i + 1)).held ++ xs)
      → Linked (take i s)
  unfolding take
  take_out i [] free h e =
      rw (take, delete_from_buffer-empty chain_max (omega arith) (s.buffers i) h) (unchanged i)
  take_out i (x ∷ xs) free h e =
      let (out, h') = delete_from_buffer-Holds chain_max (omega arith) (s.buffers i) x xs h in
      rw (take, out)
        (taken-Linked i x (delete_from_buffer chain_max (s.buffers i)).buf xs h' (rw free at e))

  take-Linked : (i : ℕ) → (s.threads (i + 1)).held ≡ none → Linked (take i s)
  take-Linked i free = let (xs, h, e) = linked i in take_out i xs free h e

  -- The thread before buffer `i` has put its value there.
  put_in :
      (i value : ℕ) (b : BufferStruct) (xs : List ℕ)
      → (s.threads i).held ≡ some value
      → Holds chain_max b (xs ++ value ∷ [])
      → (s.threads i).log ≡ (s.threads (i + 1)).log ++ (value_list (s.threads (i + 1)).held ++ xs)
      → Linked (given i value s (record { buf = b; result = 1 }))
  put_in i value b xs full h e j = elim (same_or_other j i) [
    | inl at ↦
        let u = s.threads (i + 1) in
        rw (at, same-true i, later-false i)
          (
            xs ++ value ∷ [],
            h,
            ap (λ (l : List ℕ). l ++ value ∷ []) e
                ∙ append_assoc u.log (value_list u.held ++ xs) (value ∷ [])
                ∙ ap (λ (l : List ℕ). u.log ++ l)
                    (append_assoc (value_list u.held) xs (value ∷ [])),
          )
    | inr other ↦ elim (same_or_other (j + 1) i) [
      | inl at ↦
          let (ys, k, e') = linked j in
          let full' : (s.threads (j + 1)).held ≡ some value = rw at full in
          rw (other, ← at, same-true (j + 1))
            (ys, k, (rw full' at e') ∙ sym (append_assoc (s.threads (j + 1)).log (value ∷ []) ys))
      | inr other' ↦ rw (other, other') (linked j)
    ]
  ]

  not_put : (i value : ℕ) → Linked (given i value s (record { buf = s.buffers i; result = 0 }))
  not_put i value j = elim (same_or_other j i) [
    | inl at ↦ rw (at, same-true i, later-false i) (linked i)
    | inr other ↦ elim (same_or_other (j + 1) i) [
      | inl at ↦ rw (other, ← at, same-true (j + 1)) (linked j)
      | inr other' ↦ rw (other, other') (linked j)
    ]
  ]

  give-Linked : (i value : ℕ) → (s.threads i).held ≡ some value → Linked (give i value s)
  unfolding give
  give-Linked i value full =
      let (xs, h, e) = linked i in
      elim (dec_lt (length xs) chain_max) [
        | yes room ↦
            let (done, h') =
              insert_into_buffer-Holds chain_max (omega arith) (s.buffers i) xs value h room in
            rw done
              (put_in i value (insert_into_buffer chain_max (s.buffers i) value).buf xs full h' e)
        | no none_left ↦
            rw
              (insert_into_buffer-full chain_max (omega arith) (s.buffers i) xs value h
                (omega (arith, Holds-few (s.buffers i) xs h)))
              (not_put i value)
      ]

Step-Linked : {n : ℕ} {s t : Chain} → Step n s t → Linked s → Linked t
Step-Linked (produces value more free) linked = produce-Linked _ linked value
Step-Linked (takes i small more free) linked = take-Linked _ linked i free
Step-Linked (gives i value small full) linked = give-Linked _ linked i value full

-- In every state that the threads can reach: what a thread has put into its buffer is, value for value and
-- in the same order, what the next thread has put into its own, then the value which that one holds, then
-- what the buffer holds.
pub chain_order :
    {n : ℕ} {s : Chain} (i : ℕ)
    → Reach n s
    → (xs : List ℕ) × Holds chain_max (s.buffers i) xs
      × ((s.threads i).log ≡ (s.threads (i + 1)).log ++ (value_list (s.threads (i + 1)).held ++ xs))
chain_order i reach = Reach-Linked reach i
  where
    Reach-Linked : {n : ℕ} {s : Chain} → Reach n s → Linked s
    Reach-Linked (starts garbage) = create_threads-Linked garbage
    Reach-Linked (goes before step) = Step-Linked step (Reach-Linked before)
