-- ===== src/Circular/Window.antt =====
-- The values that a circular buffer holds, and how the two operations change them.
use node2x6x2b.Base.{
  ℕ, zero, suc, ◌+◌, ◌-◌, ◌≤◌, ◌<◌, ◌≡◌, refl, ◌∙◌, arith, none, some, List, [], ◌∷◌, ◌++◌, length,
  length-append, get_or, leb, if◌then◌else◌, update,
}
use native.Mathlib.Decide.{dec_lt}
use node2x6x2b.Circular.{BufferStruct, put, insert_into_buffer, delete_from_buffer}

module _ (max : ℕ) where
  -- The `i`-th place from `front` on, counted from 1 as `front` is.
  abbrev pub place : ℕ → ℕ → ℕ
  place front i = if leb (front + i) max then front + i else front + i - max

  -- The list of values, the oldest first, fills the places from `front` to `rear`.
  pub record IsWindow (buf : BufferStruct) (xs : List ℕ) : Type 0 where
    pub front_pos : 0 < buf.front
    pub front_le : buf.front ≤ max
    pub some_left : 0 < length xs
    pub few : length xs ≤ max
    pub last : buf.rear ≡ place buf.front (length xs - 1)
    pub cells : (i : ℕ) → i < length xs → buf.buffer (place buf.front i - 1) ≡ get_or xs i 0

  abbrev pub Holds : BufferStruct → List ℕ → Type 0
  Holds buf [] = (buf.front ≡ 0) × (buf.rear ≡ 0)
  Holds buf (x ∷ xs) = IsWindow buf (x ∷ xs)

get_or-last : (xs : List ℕ) (v : ℕ) → get_or (xs ++ v ∷ []) (length xs) 0 ≡ v
get_or-last [] v = refl
get_or-last (x ∷ xs) v = get_or-last xs v

get_or-before : (xs : List ℕ) (v i : ℕ) → i < length xs → get_or (xs ++ v ∷ []) i 0 ≡ get_or xs i 0
get_or-before [] v i h = absurd (omega arith)
get_or-before (x ∷ xs) v zero h = refl
get_or-before (x ∷ xs) v (suc i) h = get_or-before xs v i (omega arith)

module _ (max : ℕ) (pos : 0 < max) where
  -- One more value behind the last one.
  longer :
      (buf : BufferStruct) (xs : List ℕ) (v rear' : ℕ)
      → IsWindow max buf xs
      → length xs < max
      → rear' ≡ place max buf.front (length xs)
      → IsWindow max
          (record buf { rear = rear'; buffer = update buf.buffer (rear' - 1) v })
          (xs ++ v ∷ [])
  longer buf xs v rear' w lt e =
      let more : length (xs ++ v ∷ []) ≡ length xs + 1 = length-append xs (v ∷ []) in
      record {
        front_pos = w.front_pos;
        front_le = w.front_le;
        some_left = omega arith;
        few = omega arith;
        last = rw more (ground (arith, w.front_le));
        cells = λ i p. elim (dec_lt i (length xs)) [
          | yes old ↦
              rw (get_or-before xs v i old, ← w.cells i old)
                (ground (arith, w.front_le, w.front_pos))
          | no new ↦
              let here : i ≡ length xs = omega arith in
              rw (here, get_or-last xs v) (ground (arith, w.front_le, w.front_pos))
        ];
      }

  single :
      (buf : BufferStruct) (v : ℕ)
      → IsWindow max (put (record buf { rear = 1; front = 1 }) v).buf (v ∷ [])
  single buf v = record {
    front_pos = omega arith;
    front_le = omega arith;
    some_left = omega arith;
    few = omega arith;
    last = ground arith;
    cells = λ i p. let first : i ≡ 0 = omega arith in rw first (ground arith);
  }

  insert-room :
      (buf : BufferStruct) (xs : List ℕ) (v : ℕ)
      → IsWindow max buf xs
      → length xs < max
      → insert_into_buffer max buf v ≡ put (record buf { rear = place max buf.front (length xs) }) v
  unfolding insert_into_buffer
  insert-room buf xs v w lt = ground (arith, w.front_pos, w.front_le, w.some_left, w.last)

  -- Where there is room `insert_into_buffer` returns 1 and puts the value behind the others.
  pub insert_into_buffer-Holds :
      (buf : BufferStruct) (xs : List ℕ) (v : ℕ)
      → Holds max buf xs
      → length xs < max
      → ((insert_into_buffer max buf v).result ≡ 1)
        × Holds max (insert_into_buffer max buf v).buf (xs ++ v ∷ [])
  insert_into_buffer-Holds buf [] v h lt =
      let e : insert_into_buffer max buf v ≡ put (record buf { rear = 1; front = 1 }) v =
        unfold insert_into_buffer in ground (arith, h.0, h.1) in
      rw e (refl, single buf v)
  insert_into_buffer-Holds buf (x ∷ xs) v w lt =
      rw (insert-room buf (x ∷ xs) v w lt) (refl, longer buf (x ∷ xs) v _ w lt refl)

  -- Where there is none it returns 0 and changes nothing.
  pub insert_into_buffer-full :
      (buf : BufferStruct) (xs : List ℕ) (v : ℕ)
      → Holds max buf xs
      → length xs ≡ max
      → insert_into_buffer max buf v ≡ record { buf = buf; result = 0 }
  unfolding insert_into_buffer
  insert_into_buffer-full buf [] v h full = absurd (omega arith)
  insert_into_buffer-full buf (x ∷ xs) v w full = ground (arith, w.front_pos, w.front_le, w.last)

  pub delete_from_buffer-empty :
      (buf : BufferStruct)
      → Holds max buf []
      → delete_from_buffer max buf ≡ record { buf = buf; result = none }
  unfolding delete_from_buffer
  delete_from_buffer-empty buf h = ground (arith, h.0, h.1)

  shorter :
      (buf : BufferStruct) (x y : ℕ) (ys : List ℕ)
      → IsWindow max buf (x ∷ y ∷ ys)
      → IsWindow max (record buf { front = place max buf.front 1 }) (y ∷ ys)
  shorter buf x y ys w = record {
    front_pos = ground (arith, w.front_pos, w.front_le);
    front_le = ground (arith, w.front_pos, w.front_le);
    some_left = omega arith;
    few = omega (arith, w.few);
    last = ground (arith, w.front_pos, w.front_le, w.few, w.last);
    cells = λ i p.
        let next : place max (place max buf.front 1) i ≡ place max buf.front (i + 1) =
          ground (arith, w.front_pos, w.front_le, w.few) in
        rw next (w.cells (i + 1) (omega arith) ∙ after i);
  }
    where
      after : (i : ℕ) → get_or (x ∷ y ∷ ys) (i + 1) 0 ≡ get_or (y ∷ ys) i 0
      after i = let e : i + 1 ≡ suc i = omega arith in rw e refl

  -- From a buffer with values `delete_from_buffer` takes and returns the oldest.
  pub delete_from_buffer-Holds :
      (buf : BufferStruct) (x : ℕ) (xs : List ℕ)
      → Holds max buf (x ∷ xs)
      → ((delete_from_buffer max buf).result ≡ some x)
        × Holds max (delete_from_buffer max buf).buf xs
  delete_from_buffer-Holds buf x [] w =
      let first : buf.buffer (buf.front - 1) ≡ x = ground (arith, w.front_le, w.cells 0) in
      let e : delete_from_buffer max buf
          ≡ record { buf = record buf { front = 0; rear = 0 }; result = some x } =
        unfold delete_from_buffer in ground (arith, w.front_pos, w.front_le, w.last, first) in
      rw e (refl, (refl, refl))
  delete_from_buffer-Holds buf x (y ∷ ys) w =
      let first : buf.buffer (buf.front - 1) ≡ x = ground (arith, w.front_le, w.cells 0) in
      let e : delete_from_buffer max buf
          ≡ record { buf = record buf { front = place max buf.front 1 }; result = some x } =
        unfold delete_from_buffer in
        ground (arith, w.front_pos, w.front_le, w.few, w.last, first) in
      rw e (refl, shorter buf x y ys w)
