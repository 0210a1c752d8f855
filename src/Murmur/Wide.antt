-- ===== src/Murmur/Wide.antt =====
-- murmurhash/murmur3.c: `MurmurHash3_x86_128` and `MurmurHash3_x64_128`, with what only these use.
-- A number of 32 or 64 bits wraps in sums, products and left shifts.
pub mod Reads
use node2x6x2b.Base.{
  ℕ, zero, suc, ◌+◌, ◌-◌, ◌*◌, ◌/◌, ◌%◌, ◌^◌, List, [], ◌∷◌, bit_and, bit_or, bit_xor, u32, u64,
  ◌<<<◌, ◌>>>◌, leb, if◌then◌else◌,
}
use node2x6x2b.Murmur.{rotl32, fmix32, getblock}

unfoldable pub rotl64 : ℕ → ℕ → ℕ
rotl64 x r = bit_or (u64 (x <<< r)) (x >>> (64 - r))

unfoldable pub fmix64 : ℕ → ℕ
fmix64 k =
    let k1 = bit_xor k (k >>> 33) in
    let k2 = u64 (k1 * 0xff51afd7ed558ccd) in
    let k3 = bit_xor k2 (k2 >>> 33) in
    let k4 = u64 (k3 * 0xc4ceb9fe1a85ec53) in bit_xor k4 (k4 >>> 33)

-- `case number: k ^= tail[number - 1] << shift;`
pub record Case : Type 0 where
  pub number : ℕ
  pub shift : ℕ

abbrev pub case : ℕ → ℕ → Case
case number shift = record { number = number; shift = shift }

-- Cases that fall through, from the highest on, for a `k` of `width` bits; `rest` is the switched value.
unfoldable pub tail_key : ℕ → (ℕ → ℕ) → ℕ → List Case → ℕ → ℕ
tail_key width tail rest [] k = k
tail_key width tail rest (c ∷ cs) k =
    tail_key width tail rest cs
      (if leb c.number rest then bit_xor k ((tail (c.number - 1) <<< c.shift) % 2 ^ width) else k)

pub record FourWords : Type 0 where
  pub h1 : ℕ
  pub h2 : ℕ
  pub h3 : ℕ
  pub h4 : ℕ

-- `k *= c; k = ROTL32(k,r); k *= d;`
unfoldable pub scramble32 : ℕ → ℕ → ℕ → ℕ → ℕ
scramble32 c r d k = u32 (rotl32 (u32 (k * c)) r * d)

-- `h ^= k; h = ROTL32(h,r); h += other; h = h*5+n;`
unfoldable pub absorb32 : ℕ → ℕ → ℕ → ℕ → ℕ → ℕ
absorb32 r n h other k = u32 (u32 (rotl32 (bit_xor h k) r + other) * 5 + n)

-- The keys are scrambled with `c1` to `c4` of `MurmurHash3_x86_128`, the same in its body and its tail.
unfoldable pub key1 : ℕ → ℕ
key1 = scramble32 0x239b961b 15 0xab0e9789

unfoldable pub key2 : ℕ → ℕ
key2 = scramble32 0xab0e9789 16 0x38b34ae5

unfoldable pub key3 : ℕ → ℕ
key3 = scramble32 0x38b34ae5 17 0xa1e38b93

unfoldable pub key4 : ℕ → ℕ
key4 = scramble32 0xa1e38b93 18 0x239b961b

-- One round of the body; `h4` is mixed with the new `h1`.
unfoldable pub round_x86 : ℕ → ℕ → ℕ → ℕ → FourWords → FourWords
round_x86 k1 k2 k3 k4 s =
    let h1' = absorb32 19 0x561ccd1b s.h1 s.h2 (key1 k1) in
    record {
      h1 = h1';
      h2 = absorb32 17 0x0bcaa747 s.h2 s.h3 (key2 k2);
      h3 = absorb32 15 0x96cd1c35 s.h3 s.h4 (key3 k3);
      h4 = absorb32 13 0x32ac3b17 s.h4 h1' (key4 k4);
    }

-- The loop over the blocks; `j` is the source's `i + nblocks`.
unfoldable pub body_x86 : ℕ → (ℕ → ℕ) → ℕ → FourWords → FourWords
body_x86 zero bytes j s = s
body_x86 (suc left) bytes j s = body_x86 left bytes (j + 1) (
    round_x86 (getblock bytes (j * 16)) (getblock bytes (j * 16 + 4)) (getblock bytes (j * 16 + 8))
      (getblock bytes (j * 16 + 12)) s)

-- The cases of the switch for each key.
abbrev pub cases4 : List Case
cases4 = case 15 16 ∷ case 14 8 ∷ case 13 0 ∷ []

abbrev pub cases3 : List Case
cases3 = case 12 24 ∷ case 11 16 ∷ case 10 8 ∷ case 9 0 ∷ []

abbrev pub cases2 : List Case
cases2 = case 8 24 ∷ case 7 16 ∷ case 6 8 ∷ case 5 0 ∷ []

abbrev pub cases1 : List Case
cases1 = case 4 24 ∷ case 3 16 ∷ case 2 8 ∷ case 1 0 ∷ []

unfoldable pub tail_x86 : (ℕ → ℕ) → ℕ → FourWords → FourWords
tail_x86 tail rest s = record {
  h4 = if leb 13 rest then bit_xor s.h4 (key4 (tail_key 32 tail rest cases4 0)) else s.h4;
  h3 = if leb 9 rest then bit_xor s.h3 (key3 (tail_key 32 tail rest cases3 0)) else s.h3;
  h2 = if leb 5 rest then bit_xor s.h2 (key2 (tail_key 32 tail rest cases2 0)) else s.h2;
  h1 = if leb 1 rest then bit_xor s.h1 (key1 (tail_key 32 tail rest cases1 0)) else s.h1;
}

-- `h1 += h2; h1 += h3; h1 += h4; h2 += h1; h3 += h1; h4 += h1;`
unfoldable pub add_all : FourWords → FourWords
add_all s =
    let h1' = u32 (u32 (u32 (s.h1 + s.h2) + s.h3) + s.h4) in
    record { h1 = h1'; h2 = u32 (s.h2 + h1'); h3 = u32 (s.h3 + h1'); h4 = u32 (s.h4 + h1') }

unfoldable pub finish_x86 : ℕ → FourWords → FourWords
finish_x86 len s =
    let a = add_all (record {
      h1 = bit_xor s.h1 len;
      h2 = bit_xor s.h2 len;
      h3 = bit_xor s.h3 len;
      h4 = bit_xor s.h4 len;
    }) in
    add_all (record { h1 = fmix32 a.h1; h2 = fmix32 a.h2; h3 = fmix32 a.h3; h4 = fmix32 a.h4 })

unfoldable pub murmurhash3_x86_128 : (ℕ → ℕ) → ℕ → ℕ → FourWords
murmurhash3_x86_128 bytes len seed =
    let nblocks = len / 16 in
    finish_x86 len (
      tail_x86 (λ i. bytes (nblocks * 16 + i)) (bit_and len 15)
        (body_x86 nblocks bytes 0 (record { h1 = seed; h2 = seed; h3 = seed; h4 = seed })))

pub record TwoWords : Type 0 where
  pub h1 : ℕ
  pub h2 : ℕ

-- `getblock` of a `uint64_t`
unfoldable pub getblock64 : (ℕ → ℕ) → ℕ → ℕ
getblock64 bytes at = getblock bytes at + getblock bytes (at + 4) * 2 ^ 32

unfoldable pub wide_key1 : ℕ → ℕ
wide_key1 k1 = u64 (rotl64 (u64 (k1 * 0x87c37b91114253d5)) 31 * 0x4cf5ad432745937f)

unfoldable pub wide_key2 : ℕ → ℕ
wide_key2 k2 = u64 (rotl64 (u64 (k2 * 0x4cf5ad432745937f)) 33 * 0x87c37b91114253d5)

-- `h ^= k; h = ROTL64(h,r); h += other; h = h*5+n;`
unfoldable pub absorb64 : ℕ → ℕ → ℕ → ℕ → ℕ → ℕ
absorb64 r n h other k = u64 (u64 (rotl64 (bit_xor h k) r + other) * 5 + n)

-- One round of the body; `h2` is mixed with the new `h1`.
unfoldable pub round_x64 : ℕ → ℕ → TwoWords → TwoWords
round_x64 k1 k2 s =
    let h1' = absorb64 27 0x52dce729 s.h1 s.h2 (wide_key1 k1) in
    record { h1 = h1'; h2 = absorb64 31 0x38495ab5 s.h2 h1' (wide_key2 k2) }

unfoldable pub body_x64 : ℕ → (ℕ → ℕ) → ℕ → TwoWords → TwoWords
body_x64 zero bytes i s = s
body_x64 (suc left) bytes i s =
    body_x64 left bytes (i + 1)
      (round_x64 (getblock64 bytes (i * 16)) (getblock64 bytes (i * 16 + 8)) s)

abbrev pub wide_cases2 : List Case
wide_cases2 =
    case 15 48 ∷ case 14 40 ∷ case 13 32 ∷ case 12 24 ∷ case 11 16 ∷ case 10 8 ∷ case 9 0 ∷ []

abbrev pub wide_cases1 : List Case
wide_cases1 =
    case 8 56 ∷ case 7 48 ∷ case 6 40 ∷ case 5 32 ∷ case 4 24 ∷ case 3 16 ∷ case 2 8 ∷ case 1 0 ∷ []

unfoldable pub tail_x64 : (ℕ → ℕ) → ℕ → TwoWords → TwoWords
tail_x64 tail rest s = record {
  h2 = if leb 9 rest then bit_xor s.h2 (wide_key2 (tail_key 64 tail rest wide_cases2 0)) else s.h2;
  h1 = if leb 1 rest then bit_xor s.h1 (wide_key1 (tail_key 64 tail rest wide_cases1 0)) else s.h1;
}

-- `h1 += h2; h2 += h1;`
unfoldable pub add_both : TwoWords → TwoWords
add_both s = let h1' = u64 (s.h1 + s.h2) in record { h1 = h1'; h2 = u64 (s.h2 + h1') }

unfoldable pub finish_x64 : ℕ → TwoWords → TwoWords
finish_x64 len s =
    let a = add_both (record { h1 = bit_xor s.h1 len; h2 = bit_xor s.h2 len }) in
    add_both (record { h1 = fmix64 a.h1; h2 = fmix64 a.h2 })

unfoldable pub murmurhash3_x64_128 : (ℕ → ℕ) → ℕ → ℕ → TwoWords
murmurhash3_x64_128 bytes len seed =
    let nblocks = len / 16 in
    finish_x64 len (
      tail_x64 (λ i. bytes (nblocks * 16 + i)) (bit_and len 15)
        (body_x64 nblocks bytes 0 (record { h1 = seed; h2 = seed })))
