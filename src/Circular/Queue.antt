-- ===== src/Circular/Queue.antt =====
-- The circular buffer against a bounded queue.
use node2x6x2b.Base.{
  ℕ, ◌≤◌, ◌≡◌, refl, arith, none, some, List, [], ◌∷◌, ◌++◌, length, length-append, ltb,
  if◌then◌else◌, Bool-cases, inl, inr,
}
use node2x6x2b.Circular.{
  buffer_max, BufferStruct, initialize_buffer, insert_into_buffer, delete_from_buffer, Request,
  insert, delete, Reply, inserted, deleted, rounds, main,
}
use node2x6x2b.Circular.Window.{
  Holds, insert_into_buffer-Holds, insert_into_buffer-full, delete_from_buffer-empty,
  delete_from_buffer-Holds,
}

-- The replies of a queue of at most `MAX` values, the oldest first.
pub queue_replies : List Request → List ℕ → List Reply
queue_replies [] xs = []
queue_replies (insert e ∷ rest) xs =
    if ltb (length xs) buffer_max
    then inserted 1 ∷ queue_replies rest (xs ++ e ∷ [])
    else inserted 0 ∷ queue_replies rest xs
queue_replies (delete ∷ rest) [] = deleted none ∷ queue_replies rest []
queue_replies (delete ∷ rest) (x ∷ xs) = deleted (some x) ∷ queue_replies rest xs

rounds-queue :
    (requests : List Request) (buf : BufferStruct) (xs : List ℕ)
    → Holds buffer_max buf xs
    → length xs ≤ buffer_max
    → rounds requests buf ≡ queue_replies requests xs
unfolding rounds queue_replies
rounds-queue [] buf xs h few = refl
rounds-queue (insert e ∷ rest) buf xs h few = elim (Bool-cases (ltb (length xs) buffer_max)) [
  | inl room ↦
      let (done, h') =
        insert_into_buffer-Holds buffer_max (omega arith) buf xs e h (ground arith) in
      let fits : length (xs ++ e ∷ []) ≤ buffer_max = ground (arith, length-append xs (e ∷ [])) in
      rw
        (
          room,
          done,
          rounds-queue rest (insert_into_buffer buffer_max buf e).buf (xs ++ e ∷ []) h' fits,
        )
        refl
  | inr full ↦
      rw
        (
          full,
          insert_into_buffer-full buffer_max (omega arith) buf xs e h (ground arith),
          rounds-queue rest buf xs h few,
        )
        refl
]
rounds-queue (delete ∷ rest) buf [] h few =
    rw (delete_from_buffer-empty buffer_max (omega arith) buf h, rounds-queue rest buf [] h few)
      refl
rounds-queue (delete ∷ rest) buf (x ∷ xs) h few =
    let (taken, h') = delete_from_buffer-Holds buffer_max (omega arith) buf x xs h in
    rw (taken, rounds-queue rest (delete_from_buffer buffer_max buf).buf xs h' (omega arith)) refl

-- Whatever is inserted and deleted in whichever order, the replies are those of a first-in, first-out
-- queue of at most `MAX` values.
pub main-queue :
    (requests : List Request) (s : BufferStruct) → main requests s ≡ queue_replies requests []
unfolding main initialize_buffer
main-queue requests s = rounds-queue requests (initialize_buffer s) [] (refl, refl) (omega arith)
