-- ===== src/Older/Sign.antt =====
-- The sign of the hash of hardcore_new5.c.
use node2x6x2b.Base.{
  ℕ, zero, suc, ◌+◌, ◌-◌, ◌*◌, ◌%◌, ◌^◌, ◌≤◌, ◌<◌, ◌≡◌, refl, sym, ap, ◌∙◌, arith, true, false,
  none, u32, u64, srem, ltb,
}
use native.Mathlib.Decide.{dec_lt}
use node2x6x2b.Older.{
  filter_size, Globals, hash, find_thread, note_address, store_new, store_sample,
}

product_even : (n : ℕ) → n * (n - 1) % 2 ≡ 0
product_even zero = refl
product_even (suc n) =
    let less : suc n - 1 ≡ n = omega arith in
    let more : suc n * n ≡ n * n + n = grind arith in
    rw less (elim (dec_lt 0 n) [
      | yes pos ↦
          let back : n - 1 + 1 ≡ n = omega arith in
          let square : n * n ≡ n * (n - 1) + n = ap (λ k. n * k) (sym back) ∙ grind arith in
          omega (arith, more, square, product_even n)
      | no none_left ↦ let same : n ≡ 0 = omega arith in rw same refl
    ])

hash_positive : (v : ℕ) → v < 2 ^ 63 → u32 (srem 64 v filter_size) ≡ v % filter_size
hash_positive v lt = let test : ltb v (2 ^ 63) ≡ true = ground arith in rw test (omega arith)

hash_negative : (v : ℕ) → 2 ^ 63 ≤ v → v < 2 ^ 64 → v % 2 ≡ 1 → 2 ^ 31 ≤ u32 (srem 64 v filter_size)
hash_negative v le lt odd =
    let test : ltb v (2 ^ 63) ≡ false = ground arith in rw test (omega arith)

-- Where the sum fits 63 bits, the hash is the index that was meant.
hash-inside :
    (addr : ℕ)
    → addr * (addr - 1) * 5 + 3 < 2 ^ 63
    → hash addr ≡ (addr * (addr - 1) * 5 + 3) % filter_size
unfolding hash
hash-inside addr small =
    let same : u64 (addr * (addr - 1) * 5 + 3) ≡ addr * (addr - 1) * 5 + 3 = omega arith in
    rw same (hash_positive (addr * (addr - 1) * 5 + 3) small)

-- Where the sum wraps to a negative number, so does the hash.
hash-outside : (addr : ℕ) → 2 ^ 63 ≤ u64 (addr * (addr - 1) * 5 + 3) → 2 ^ 31 ≤ hash addr
unfolding hash
hash-outside addr negative =
    hash_negative (u64 (addr * (addr - 1) * 5 + 3)) negative (omega arith)
      (omega (arith, product_even addr))

-- A new thread at such an address is recorded outside its filter.
store_sample-outside :
    (pid tid addr cpu : ℕ) (g : Globals)
    → find_thread g.thread_index 0 g.threads tid ≡ none
    → 2 ^ 63 ≤ u64 (addr * (addr - 1) * 5 + 3)
    → store_sample pid tid addr cpu g ≡ none
unfolding store_sample store_new note_address
store_sample-outside pid tid addr cpu g new negative =
    rw new (ground (arith, hash-outside addr negative))
