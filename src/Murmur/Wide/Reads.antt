-- ===== src/Murmur/Wide/Reads.antt =====
-- The 128-bit hashes read no byte behind the key.
use node2x6x2b.Base.{
  ℕ, zero, suc, ◌+◌, ◌-◌, ◌*◌, ◌/◌, ◌%◌, ◌≤◌, ◌<◌, ◌≡◌, refl, arith, Bool, ◌&&◌, ltb, List, [], ◌∷◌,
  bit_and, leb, Bool-cases, true, inl, inr,
}
use node2x6x2b.Base.Bits.{bit_and_mask}
use node2x6x2b.Murmur.{getblock}
use node2x6x2b.Murmur.Wide.{
  Case, tail_key, FourWords, body_x86, tail_x86, cases1, cases2, cases3, cases4,
  murmurhash3_x86_128, TwoWords, getblock64, body_x64, tail_x64, wide_cases1, wide_cases2,
  murmurhash3_x64_128,
}

module _ (p q : ℕ → ℕ) (len : ℕ) (same : (i : ℕ) → i < len → p i ≡ q i) where
  getblock-same : (at : ℕ) → at + 4 ≤ len → getblock p at ≡ getblock q at
  unfolding getblock
  getblock-same at h =
      rw
        (
          same at (omega arith),
          same (at + 1) (omega arith),
          same (at + 2) (omega arith),
          same (at + 3) (omega arith),
        )
        refl

  getblock64-same : (at : ℕ) → at + 8 ≤ len → getblock64 p at ≡ getblock64 q at
  unfolding getblock64
  getblock64-same at h =
      rw (getblock-same at (omega arith), getblock-same (at + 4) (omega arith)) refl

  body_x86-same :
      (left j : ℕ) (s : FourWords)
      → (j + left) * 16 ≤ len
      → body_x86 left p j s ≡ body_x86 left q j s
  unfolding body_x86
  body_x86-same zero j s h = refl
  body_x86-same (suc left) j s h =
      rw
        (
          getblock-same (j * 16) (omega arith),
          getblock-same (j * 16 + 4) (omega arith),
          getblock-same (j * 16 + 8) (omega arith),
          getblock-same (j * 16 + 12) (omega arith),
        )
        (body_x86-same left (j + 1) _ (omega arith))

  body_x64-same :
      (left j : ℕ) (s : TwoWords)
      → (j + left) * 16 ≤ len
      → body_x64 left p j s ≡ body_x64 left q j s
  unfolding body_x64
  body_x64-same zero j s h = refl
  body_x64-same (suc left) j s h =
      rw (getblock64-same (j * 16) (omega arith), getblock64-same (j * 16 + 8) (omega arith))
        (body_x64-same left (j + 1) _ (omega arith))

-- All cases have a byte.
abbrev all_positive : List Case → Bool
all_positive [] = true
all_positive (c ∷ cs) = ltb 0 c.number && all_positive cs

tail_key-same :
    (p q : ℕ → ℕ) (rest : ℕ)
    → ((i : ℕ) → i < rest → p i ≡ q i)
    → (width : ℕ) (cs : List Case) (k : ℕ) → all_positive cs ≡ true
    → tail_key width p rest cs k ≡ tail_key width q rest cs k
unfolding tail_key
tail_key-same p q rest same width [] k pos = refl
tail_key-same p q rest same width (c ∷ cs) k pos = elim (Bool-cases (leb c.number rest)) [
  | inl taken ↦
      let byte : p (c.number - 1) ≡ q (c.number - 1) = same (c.number - 1) (ground (arith, pos)) in
      rw (tail_key, taken, byte) (tail_key-same p q rest same width cs _ (ground (arith, pos)))
  | inr passed ↦
      rw (tail_key, passed) (tail_key-same p q rest same width cs k (ground (arith, pos)))
]

-- The result of `MurmurHash3_x86_128` depends on the first `len` bytes only.
murmurhash3_x86_128-reads :
    (p q : ℕ → ℕ) (len seed : ℕ)
    → ((i : ℕ) → i < len → p i ≡ q i)
    → murmurhash3_x86_128 p len seed ≡ murmurhash3_x86_128 q len seed
unfolding murmurhash3_x86_128 tail_x86
murmurhash3_x86_128-reads p q len seed same =
    let rest : bit_and len 15 ≡ len % 16 = bit_and_mask 4 len in
    let t =
      tail_key-same (λ i. p (len / 16 * 16 + i)) (λ i. q (len / 16 * 16 + i)) (len % 16)
        (λ i h. same (len / 16 * 16 + i) (omega arith)) in
    rw
      (
        rest,
        body_x86-same p q len same (len / 16) 0 _ (omega arith),
        t 32 cases4 0 refl,
        t 32 cases3 0 refl,
        t 32 cases2 0 refl,
        t 32 cases1 0 refl,
      )
      refl

-- The result of `MurmurHash3_x64_128` depends on the first `len` bytes only.
murmurhash3_x64_128-reads :
    (p q : ℕ → ℕ) (len seed : ℕ)
    → ((i : ℕ) → i < len → p i ≡ q i)
    → murmurhash3_x64_128 p len seed ≡ murmurhash3_x64_128 q len seed
unfolding murmurhash3_x64_128 tail_x64
murmurhash3_x64_128-reads p q len seed same =
    let rest : bit_and len 15 ≡ len % 16 = bit_and_mask 4 len in
    let t =
      tail_key-same (λ i. p (len / 16 * 16 + i)) (λ i. q (len / 16 * 16 + i)) (len % 16)
        (λ i h. same (len / 16 * 16 + i) (omega arith)) in
    rw
      (
        rest,
        body_x64-same p q len same (len / 16) 0 _ (omega arith),
        t 64 wide_cases2 0 refl,
        t 64 wide_cases1 0 refl,
      )
      refl
