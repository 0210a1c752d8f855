-- ===== src/Hash/Reference.antt =====
-- `hash` of hardcore_new6.c against the MurmurHash3 of murmurhash/murmur3.c.
use node2x6x2b.Base.{ℕ, zero, suc, ◌+◌, ◌*◌, ◌/◌, ◌%◌, ◌^◌, ◌<◌, ◌≡◌, refl, ◌∙◌, ap, arith, length}
use node2x6x2b.Murmur.{
  murmurhash3_x86_32, body, round, scramble, rotl32, getblock, fmix32, tail_switch,
}
use node2x6x2b.Murmur.Stream.{bytes_of}
use node2x6x2b.Hash.{hash, filter_size, hash_key, chunk_loop, mix, append_to_hash, remainder}
use node2x6x2b.Hash.Decimal.{sprintf_lld, length-sprintf_lld}
use native.Mathlib.Nat.{mod-eq_of_lt}

chunk_loop-body : (left : ℕ) (d : ℕ → ℕ) (j h : ℕ) → chunk_loop left d (j * 4) h ≡ body left d j h
unfolding chunk_loop body append_to_hash mix round scramble rotl32 getblock
chunk_loop-body zero d j h = refl
chunk_loop-body (suc left) d j h =
    let next : j * 4 + 4 ≡ (j + 1) * 4 = omega arith in
    rw next (chunk_loop-body left d (j + 1) (round h (getblock d (j * 4))))

hash_key-murmur : (d : ℕ → ℕ) (len : ℕ) → hash_key d len ≡ murmurhash3_x86_32 d len 0 % filter_size
unfolding hash_key murmurhash3_x86_32 remainder tail_switch fmix32 mix scramble rotl32
hash_key-murmur d len = rw (chunk_loop-body (len / 4) d 0 0) refl

-- The copy of MurmurHash3 in `hash` computes what the reference code does: the hash of an address is
-- `MurmurHash3_x86_32` of its decimal text with seed 0, modulo `M`.
pub hash-murmur :
    (addr : ℕ)
    → hash addr
      ≡ murmurhash3_x86_32 (bytes_of (sprintf_lld addr)) (length (sprintf_lld addr)) 0 % filter_size
unfolding hash
hash-murmur addr =
    let short : length (sprintf_lld addr) < 2 ^ 32 = omega (arith, length-sprintf_lld addr) in
    ap (λ (len : ℕ). hash_key (bytes_of (sprintf_lld addr)) len) (mod-eq_of_lt short)
    ∙ hash_key-murmur (bytes_of (sprintf_lld addr)) (length (sprintf_lld addr))

-- Each hash is an index of a Bloom filter.
pub hash-lt : (addr : ℕ) → hash addr < filter_size
hash-lt addr = rw (hash-murmur addr) (omega arith)
