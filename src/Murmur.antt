-- ===== src/Murmur.antt =====
-- murmurhash/murmur3.c: the 32-bit pieces, and `MurmurHash3_x86_32`. A `uint32_t` is a number below
-- 2 ^ 32, the products and left shifts wrap, and `data` is the array of bytes under the key pointer.
-- `getblock` reads four bytes, lowest first, as on the x86 hosts that the program is for.
pub mod Range
pub mod Stream
pub mod Wide
use node2x6x2b.Base.{
  ℕ, zero, suc, ◌+◌, ◌-◌, ◌*◌, ◌/◌, ◌^◌, bit_and, bit_or, bit_xor, u32, ◌<<<◌, ◌>>>◌, ◌==◌, leb,
  if◌then◌else◌,
}

unfoldable pub rotl32 : ℕ → ℕ → ℕ
rotl32 x r = bit_or (u32 (x <<< r)) (x >>> (32 - r))

unfoldable pub fmix32 : ℕ → ℕ
fmix32 h =
    let h1 = bit_xor h (h >>> 16) in
    let h2 = u32 (h1 * 0x85ebca6b) in
    let h3 = bit_xor h2 (h2 >>> 13) in let h4 = u32 (h3 * 0xc2b2ae35) in bit_xor h4 (h4 >>> 16)

-- `getblock(p, i)` with `p` at the start of the bytes and `at` the offset of the block
unfoldable pub getblock : (ℕ → ℕ) → ℕ → ℕ
getblock bytes at =
    bytes at + bytes (at + 1) * 2 ^ 8 + bytes (at + 2) * 2 ^ 16 + bytes (at + 3) * 2 ^ 24

abbrev c1 : ℕ
c1 = 0xcc9e2d51

abbrev c2 : ℕ
c2 = 0x1b873593

unfoldable pub scramble : ℕ → ℕ
scramble k1 = u32 (rotl32 (u32 (k1 * c1)) 15 * c2)

-- One round of the body loop.
unfoldable pub round : ℕ → ℕ → ℕ
round h1 k1 = u32 (rotl32 (bit_xor h1 (scramble k1)) 13 * 5 + 0xe6546b64)

-- The body loop, `left` rounds before its end; `j` is the source's `i + nblocks`.
unfoldable pub body : ℕ → (ℕ → ℕ) → ℕ → ℕ → ℕ
body zero bytes j h1 = h1
body (suc left) bytes j h1 = body left bytes (j + 1) (round h1 (getblock bytes (j * 4)))

-- The switch on `len & 3`, each case falling through to the next.
unfoldable pub tail_switch : (ℕ → ℕ) → ℕ → ℕ → ℕ
tail_switch tail rest h1 =
    let k3 = if rest == 3 then bit_xor 0 (tail 2 <<< 16) else 0 in
    let k2 = if leb 2 rest then bit_xor k3 (tail 1 <<< 8) else k3 in
    if leb 1 rest then bit_xor h1 (scramble (bit_xor k2 (tail 0))) else h1

unfoldable pub murmurhash3_x86_32 : (ℕ → ℕ) → ℕ → ℕ → ℕ
murmurhash3_x86_32 bytes len seed =
    let nblocks = len / 4 in
    let h1 = body nblocks bytes 0 seed in
    let h2 = tail_switch (λ i. bytes (nblocks * 4 + i)) (bit_and len 3) h1 in
    fmix32 (bit_xor h2 len)
