-- ===== src/Samples/History.antt =====
-- One table of addresses against the list of the addresses that were recorded in it.
use node2x6x2b.Base.{
  ℕ, zero, suc, ◌+◌, ◌≤◌, ◌<◌, ◌≡◌, ◌≢◌, ◌∙◌, arith, false, none, some, List, [], ◌∷◌, ltb, ◌==◌,
  if◌then◌else◌, update, sum_below, sum_below-eq, sum_below-add-one, sum_below-one,
  sum_below-change, length, Bool-cases, Option-cases, inl, inr,
}
use native.Mathlib.Decide.{dec_lt}
use node2x6x2b.Hash.{hash, filter_size}
use node2x6x2b.Hash.Reference.{hash-lt}
use node2x6x2b.Samples.{unique, Track, find_addr, first_address, note_address, next_address}

-- How often an address stands in a list.
unfoldable pub count : ℕ → List ℕ → ℕ
count a [] = 0
count a (x ∷ xs) = if x == a then suc (count a xs) else count a xs

abbrev pub hits : ℕ → ℕ → ℕ
hits slot a = if hash a == slot then 1 else 0

-- `history` holds the addresses recorded, the last one first.
pub record Represents (tr : Track) (history : List ℕ) : Type 0 where
  pub room : tr.mem_addr_index ≤ unique
  pub distinct :
      (i j : ℕ)
      → i < tr.mem_addr_index
      → j < tr.mem_addr_index
      → tr.mem_addr i ≡ tr.mem_addr j
      → i ≡ j
  pub counted : (i : ℕ) → i < tr.mem_addr_index → tr.freq i ≡ count (tr.mem_addr i) history
  pub complete :
      (a : ℕ) → 0 < count a history → (i : ℕ) × (i < tr.mem_addr_index) × (tr.mem_addr i ≡ a)
  pub seen : (i : ℕ) → i < tr.mem_addr_index → 0 < count (tr.mem_addr i) history
  pub total : sum_below tr.mem_addr_index tr.freq ≡ length history
  pub slots :
      (h : ℕ)
      → h < filter_size
      → tr.filter_freq h ≡ sum_below tr.mem_addr_index (λ i. hits h (tr.mem_addr i))
  pub flags : (h : ℕ) → h < filter_size → tr.filter h ≡ ltb 0 (tr.filter_freq h)

-- A table whose filters are clear.
pub record IsClear (tr : Track) : Type 0 where
  pub no_flag : (h : ℕ) → h < filter_size → tr.filter h ≡ false
  pub no_slot : (h : ℕ) → h < filter_size → tr.filter_freq h ≡ 0

find_addr-some :
    (mem : ℕ → ℕ) (a left j i : ℕ)
    → find_addr mem a left j ≡ some i
    → (mem i ≡ a) × (j ≤ i) × (i < j + left)
unfolding find_addr
find_addr-some mem a zero j i e = cc
find_addr-some mem a (suc left) j i e = ground (arith, find_addr-some mem a left (j + 1) i)

find_addr-none :
    (mem : ℕ → ℕ) (a left j i : ℕ)
    → find_addr mem a left j ≡ none
    → j ≤ i
    → i < j + left
    → mem i ≢ a
unfolding find_addr
find_addr-none mem a zero j i e p q = absurd (omega arith)
find_addr-none mem a (suc left) j i e p q = elim (Bool-cases (a == mem j)) [
  | inl here ↦ cc (rw here at e)
  | inr other ↦ elim (dec_lt j i) [
    | yes later ↦ find_addr-none mem a left (j + 1) i (rw other at e) (omega arith) (omega arith)
    | no now ↦ ground arith
  ]
]

module _ (tr : Track) (history : List ℕ) (a : ℕ) (rep : Represents tr history) where
  abbrev written : Track
  written = record tr { mem_addr = update tr.mem_addr tr.mem_addr_index a }

  -- One more of an address in the table.
  again :
      (j : ℕ)
      → tr.mem_addr j ≡ a
      → j < tr.mem_addr_index
      → Represents (note_address a written (some j)) (a ∷ history)
  unfolding count
  again j here lt = record {
    room = rep.room;
    distinct = λ i l p q e. ground (arith, rep.distinct i l);
    counted = λ i p. ground (arith, rep.counted i, rep.distinct i j);
    complete = λ b p. elim (Bool-cases (a == b)) [
      | inl same ↦ (j, lt, ground arith)
      | inr other ↦ let (i, q, e) = rep.complete b (ground arith) in (i, q, ground arith)
    ];
    seen = λ i p. ground (arith, rep.seen i);
    total = ground (
      arith,
      rep.total,
      sum_below-change tr.mem_addr_index j (update tr.freq j (tr.freq j + 1)) tr.freq lt
          (λ i ne. ground arith),
    );
    slots = λ h q. rep.slots h q ∙ sum_below-eq tr.mem_addr_index _ _ (λ i p. ground arith);
    flags = rep.flags;
  }

  absent : ((i : ℕ) → i < tr.mem_addr_index → tr.mem_addr i ≢ a) → count a history ≡ 0
  absent new = elim (dec_lt 0 (count a history)) [
    | yes p ↦ let (i, q, e) = rep.complete a p in absurd (new i q e)
    | no p ↦ omega arith
  ]

  -- A new address.
  added :
      tr.mem_addr_index < unique
      → ((i : ℕ) → i < tr.mem_addr_index → tr.mem_addr i ≢ a)
      → Represents (note_address a written none) (a ∷ history)
  unfolding count
  added lt new = record {
    room = omega arith;
    distinct = λ i l p q e. ground (arith, rep.distinct i l, new i, new l);
    counted = λ i p. ground (arith, rep.counted i, new i, absent new);
    complete = λ b p. elim (Bool-cases (a == b)) [
      | inl same ↦ (tr.mem_addr_index, omega arith, ground arith)
      | inr other ↦ let (i, q, e) = rep.complete b (ground arith) in (i, omega arith, ground arith)
    ];
    seen = λ i p. ground (arith, rep.seen i);
    total = ground (
      arith,
      rep.total,
      sum_below-add-one tr.mem_addr_index (update tr.freq tr.mem_addr_index 1),
      sum_below-eq tr.mem_addr_index (update tr.freq tr.mem_addr_index 1) tr.freq
          (λ i p. ground arith),
    );
    slots = λ h q.
        let f = λ (i : ℕ). hits h ((note_address a written none).mem_addr i) in
        ground (
          arith,
          rep.slots h q,
          sum_below-add-one tr.mem_addr_index f,
          sum_below-eq tr.mem_addr_index f (λ i. hits h (tr.mem_addr i)) (λ i p. ground arith),
        );
    flags = λ h q. ground (arith, rep.flags h q);
  }

-- Recording one more address in a table that is not full keeps the table right.
pub next_address-Represents :
    (tr : Track) (history : List ℕ) (a : ℕ)
    → Represents tr history
    → tr.mem_addr_index < unique
    → (tr' : Track) × (next_address a tr ≡ some tr') × Represents tr' (a ∷ history)
unfolding next_address
next_address-Represents tr history a rep lt =
    elim (Option-cases (find_addr mem a tr.mem_addr_index 0)) [
      | inl e ↦ (
        note_address a (written tr history a rep) none,
        rw e (ground arith),
        added tr history a rep lt
            (λ i p. ground (arith, find_addr-none mem a tr.mem_addr_index 0 i e)),
      )
      | inr (j, e) ↦ (
        note_address a (written tr history a rep) (some j),
        rw e (ground arith),
        again tr history a rep j (ground (arith, find_addr-some mem a tr.mem_addr_index 0 j e))
            (omega (arith, find_addr-some mem a tr.mem_addr_index 0 j e)),
      )
    ]
  where
    mem : ℕ → ℕ
    mem = update tr.mem_addr tr.mem_addr_index a

-- At a full table the write before the search is outside the array, also where the address is known.
pub next_address-full : (tr : Track) (a : ℕ) → unique ≤ tr.mem_addr_index → next_address a tr ≡ none
unfolding next_address
next_address-full tr a h = ground arith

pub first_address-Represents :
    (tr : Track) (a : ℕ) → IsClear tr → Represents (first_address a tr) (a ∷ [])
unfolding first_address count
first_address-Represents tr a clear = record {
  room = omega arith;
  distinct = λ i j p q e. omega arith;
  counted = λ i p. ground arith;
  complete = λ b p. (0, omega arith, ground arith);
  seen = λ i p. ground arith;
  total = ground (arith, sum_below-one (update tr.freq 0 1));
  slots = λ h q. ground (
    arith,
    clear.no_slot h q,
    clear.no_slot (hash a) (hash-lt a),
    sum_below-one (λ i. hits h ((first_address a tr).mem_addr i)),
  );
  flags = λ h q. ground (arith, clear.no_slot h q, clear.no_flag h q);
}

-- A table in which something was recorded has an address.
pub index-pos :
    {tr : Track} {history : List ℕ} (a : ℕ) → Represents tr (a ∷ history) → 0 < tr.mem_addr_index
unfolding count
index-pos a rep = let (i, p, e) = rep.complete a (ground arith) in omega arith
