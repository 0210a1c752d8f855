-- ===== src/Pagemap/Reading.antt =====
-- The read loop of `pagemap_get_entry`: it ends, and what it reads.
use node2x6x2b.Base.{
  ℕ, zero, suc, ◌+◌, ◌*◌, ◌/◌, ◌^◌, ◌≤◌, ◌<◌, ◌≡◌, ◌≢◌, refl, arith, none, some, List, [], u64,
  length,
}
use node2x6x2b.Pagemap.{
  Kernel, parse_entry, little_endian, store_at_start, success, failure, unfinished, read_loop,
  pagemap_get_entry,
}

-- The loop ends, whatever the kernel answers, if the rounds given and the bytes read before make more
-- than 8.
read_loop-finishes :
    (rounds : ℕ) (k : Kernel) (fd vaddr nread word : ℕ)
    → 8 < rounds + nread
    → 0 < rounds
    → read_loop rounds k fd vaddr nread word ≢ unfinished
unfolding read_loop
read_loop-finishes zero k fd vaddr nread word h pos = absurd (omega arith)
read_loop-finishes (suc zero) k fd vaddr nread word h pos = ground arith
read_loop-finishes (suc (suc rounds)) k fd vaddr nread word h pos =
    let bytes = k.pread fd (u64 (vaddr / k.page_size * 8 + nread)) in
    ground (
      arith,
      read_loop-finishes (suc rounds) k fd vaddr (nread + length bytes) (store_at_start bytes word),
    )

module _ (k : Kernel) (uninit fd vaddr : ℕ) where
  -- the bytes that `pread` stores once `nread` bytes have been read
  abbrev pub chunk : ℕ → List ℕ
  chunk nread = k.pread fd (u64 (vaddr / k.page_size * 8 + nread))

  read_loop-done :
      (rounds nread word : ℕ)
      → 8 ≤ nread
      → read_loop (suc rounds) k fd vaddr nread word ≡ success word
  unfolding read_loop
  read_loop-done rounds nread word h = ground arith

  read_loop-more :
      (rounds nread word : ℕ) (bytes : List ℕ)
      → nread < 8
      → chunk nread ≡ bytes
      → 0 < length bytes
      → read_loop (suc rounds) k fd vaddr nread word
        ≡ read_loop rounds k fd vaddr (nread + length bytes) (store_at_start bytes word)
  unfolding read_loop
  read_loop-more rounds nread word bytes h e pos = rw e (ground arith)

  read_loop-fails :
      (rounds nread word : ℕ)
      → nread < 8
      → chunk nread ≡ []
      → read_loop (suc rounds) k fd vaddr nread word ≡ failure
  unfolding read_loop
  read_loop-fails rounds nread word h e = rw e (ground arith)

  -- A `pread` that stores all 8 bytes gives the entry of the word they make, whatever `data` held.
  pub pagemap_get_entry-whole :
      (bytes : List ℕ)
      → uninit < 2 ^ 64
      → chunk 0 ≡ bytes
      → length bytes ≡ 8
      → pagemap_get_entry k uninit fd vaddr ≡ some (parse_entry (little_endian bytes))
  unfolding pagemap_get_entry store_at_start
  pagemap_get_entry-whole bytes small first eight =
      let word : store_at_start bytes uninit ≡ little_endian bytes = rw eight (omega arith) in
      rw (
        read_loop-more 8 0 uninit bytes (omega arith) first (omega arith),
        read_loop-done 7 (0 + length bytes) (store_at_start bytes uninit) (omega arith),
        word,
      )

  -- A `pread` that stores nothing at first is a failure.
  pub pagemap_get_entry-fails : chunk 0 ≡ [] → pagemap_get_entry k uninit fd vaddr ≡ none
  unfolding pagemap_get_entry
  pagemap_get_entry-fails e = rw (read_loop-fails 8 0 uninit (omega arith) e)

  -- Where the 8 bytes come in two halves, the second half is stored over the first, and the upper half
  -- of the word stays what the uninitialised variable held: the first half is lost.
  pagemap_get_entry-split :
      (first second : List ℕ)
      → chunk 0 ≡ first
      → chunk 4 ≡ second
      → length first ≡ 4
      → length second ≡ 4
      → pagemap_get_entry k uninit fd vaddr
        ≡ some (
            parse_entry (
              little_endian second
              + (little_endian first + uninit / 2 ^ 32 * 2 ^ 32) / 2 ^ 32 * 2 ^ 32))
  unfolding pagemap_get_entry
  pagemap_get_entry-split first second e e' four four' =
      let reached : 0 + length first ≡ 4 = omega arith in
      let ended : 4 + length second ≡ 8 = omega arith in
      rw
        (
          read_loop-more 8 0 uninit first (omega arith) e (omega arith),
          reached,
          read_loop-more 7 4 (store_at_start first uninit) second (omega arith) e' (omega arith),
          ended,
          read_loop-done 6 8 (store_at_start second (store_at_start first uninit)) (omega arith),
        )
        (unfold store_at_start in rw (four, four') refl)
