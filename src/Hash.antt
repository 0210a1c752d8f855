-- ===== src/Hash.antt =====
-- `hash` of hardcore_new6.c: the address is printed in decimal into `key`, and the text is hashed by
-- a copy of MurmurHash3 that is written out in the function. A `long long` is its 64-bit pattern.
pub mod Decimal
pub mod Reference
use node2x6x2b.Base.{
  ℕ, zero, suc, ◌+◌, ◌-◌, ◌*◌, ◌/◌, ◌%◌, ◌^◌, List, bit_and, bit_or, bit_xor, u32, ◌<<<◌, ◌>>>◌,
  ◌==◌, leb, if◌then◌else◌, length, get_or,
}
use Decimal.{sprintf_lld}

-- `#define M 1000`
abbrev pub filter_size : ℕ
filter_size = 1000

-- `k *= c1; k = (k << r1) | (k >> (32 - r1)); k *= c2;`
unfoldable pub mix : ℕ → ℕ
mix k =
    let k1 = u32 (k * 0xcc9e2d51) in
    let k2 = bit_or (u32 (k1 <<< 15)) (k1 >>> (32 - 15)) in u32 (k2 * 0x1b873593)

-- `h ^= k; h = (h << r2) | (h >> (32 - r2)); h = h * m + n;`
unfoldable pub append_to_hash : ℕ → ℕ → ℕ
append_to_hash h k =
    let h1 = bit_xor h k in
    let h2 = bit_or (u32 (h1 <<< 13)) (h1 >>> (32 - 13)) in u32 (h2 * 5 + 0xe6546b64)

-- The loop `for (i = -l; i != 0; ++i)`, with `left` rounds to go, that is `i = -left`;
-- `at` is the byte that `chunks + i` points to. Chunks are little-endian.
unfoldable pub chunk_loop : ℕ → (ℕ → ℕ) → ℕ → ℕ → ℕ
chunk_loop zero d at h = h
chunk_loop (suc left) d at h =
    let k = d at + d (at + 1) * 2 ^ 8 + d (at + 2) * 2 ^ 16 + d (at + 3) * 2 ^ 24 in
    chunk_loop left d (at + 4) (append_to_hash h (mix k))

-- The remainder: a switch whose cases fall through.
unfoldable pub remainder : (ℕ → ℕ) → ℕ → ℕ → ℕ
remainder tail rest h =
    let k3 = if rest == 3 then bit_xor 0 (tail 2 <<< 16) else 0 in
    let k2 = if leb 2 rest then bit_xor k3 (tail 1 <<< 8) else k3 in
    if leb 1 rest then bit_xor h (mix (bit_xor k2 (tail 0))) else h

unfoldable pub hash_key : (ℕ → ℕ) → ℕ → ℕ
hash_key d len =
    let l = len / 4 in
    let h = chunk_loop l d 0 0 in
    let h0 = remainder (λ i. d (l * 4 + i)) (bit_and len 3) h in
    let h1 = bit_xor h0 len in
    let h2 = bit_xor h1 (h1 >>> 16) in
    let h3 = u32 (h2 * 0x85ebca6b) in
    let h4 = bit_xor h3 (h3 >>> 13) in
    let h5 = u32 (h4 * 0xc2b2ae35) in let h6 = bit_xor h5 (h5 >>> 16) in h6 % filter_size

unfoldable pub hash : ℕ → ℕ
hash addr = let key = sprintf_lld addr in hash_key (λ i. get_or key i 0) (u32 (length key))
