-- ===== src/Murmur/Stream.antt =====
-- `MurmurHash3_x86_32` indexes backwards from the end of the body; this is the same hash read off a
-- list of bytes from its front, four at a time.
use node2x6x2b.Base.{
  ℕ, zero, suc, ◌+◌, ◌*◌, ◌/◌, ◌%◌, ◌^◌, ◌≡◌, refl, ap, ◌∙◌, arith, List, [], ◌∷◌, bit_xor, ◌<<<◌,
  length, get_or,
}
use mathlib.Core.Path.{fun_ext}
use native.Mathlib.Numerals.{towards_suc, add-one}
use node2x6x2b.Base.Bits.{bit_and_mask, zero-bit_xor}
use node2x6x2b.Murmur.{fmix32, getblock, scramble, round, body, tail_switch, murmurhash3_x86_32}

absorb : List ℕ → ℕ → ℕ
absorb [] h = h
absorb (a ∷ []) h = bit_xor h (scramble a)
absorb (a ∷ b ∷ []) h = bit_xor h (scramble (bit_xor (b <<< 8) a))
absorb (a ∷ b ∷ c ∷ []) h = bit_xor h (scramble (bit_xor (bit_xor (c <<< 16) (b <<< 8)) a))
absorb (a ∷ b ∷ c ∷ d ∷ xs) h = absorb xs (round h (a + b * 2 ^ 8 + c * 2 ^ 16 + d * 2 ^ 24))

pub stream_hash : List ℕ → ℕ → ℕ
stream_hash xs seed = fmix32 (bit_xor (absorb xs seed) (length xs))

abbrev pub bytes_of : List ℕ → ℕ → ℕ
bytes_of xs i = get_or xs i 0

-- the bytes from the fifth on
abbrev after_four : (ℕ → ℕ) → ℕ → ℕ
after_four bytes i = bytes (suc (suc (suc (suc i))))

getblock-after_four :
    (bytes : ℕ → ℕ) (j : ℕ) → getblock bytes (suc j * 4) ≡ getblock (after_four bytes) (j * 4)
unfolding getblock
getblock-after_four bytes j =
    let four : suc j * 4 ≡ suc (suc (suc (suc (j * 4)))) = omega arith in rw four (simp towards_suc)

body-shift :
    (n : ℕ) (bytes : ℕ → ℕ) (j h : ℕ) → body n bytes (suc j) h ≡ body n (after_four bytes) j h
unfolding body
body-shift zero bytes j h = refl
body-shift (suc n) bytes j h =
    rw (getblock-after_four bytes j, add-one j, add-one (suc j))
      (body-shift n bytes (suc j) (round h (getblock (after_four bytes) (j * 4))))

finish : (ℕ → ℕ) → ℕ → ℕ → ℕ
finish bytes len h = tail_switch (λ i. bytes (len / 4 * 4 + i)) (len % 4) (body (len / 4) bytes 0 h)

finish-four :
    (bytes : ℕ → ℕ) (len h : ℕ)
    → finish bytes (suc (suc (suc (suc len)))) h
      ≡ finish (after_four bytes) len (round h (getblock bytes 0))
unfolding finish body
finish-four bytes len h =
    let blocks : suc (suc (suc (suc len))) / 4 ≡ suc (len / 4) = omega arith in
    let rest : suc (suc (suc (suc len))) % 4 ≡ len % 4 = omega arith in
    let at : (λ i. bytes (suc (len / 4) * 4 + i)) ≡ (λ i. after_four bytes (len / 4 * 4 + i)) =
      fun_ext (λ i. ap bytes (omega arith)) in
    rw (blocks, rest, at, body-shift (len / 4) bytes 0 (round h (getblock bytes 0))) refl

finish-absorb : (xs : List ℕ) (h : ℕ) → finish (bytes_of xs) (length xs) h ≡ absorb xs h
unfolding finish body absorb tail_switch getblock
finish-absorb [] h = refl
finish-absorb (a ∷ []) h = rw (zero-bit_xor a) refl
finish-absorb (a ∷ b ∷ []) h = rw (zero-bit_xor (b <<< 8)) refl
finish-absorb (a ∷ b ∷ c ∷ []) h = rw (zero-bit_xor (c <<< 16)) refl
finish-absorb (a ∷ b ∷ c ∷ d ∷ xs) h =
    finish-four (bytes_of (a ∷ b ∷ c ∷ d ∷ xs)) (length xs) h
    ∙ finish-absorb xs (round h (a + b * 2 ^ 8 + c * 2 ^ 16 + d * 2 ^ 24))

-- `MurmurHash3_x86_32` of the bytes of a list, with their number as its length, is the hash that
-- absorbs the list from its front.
murmurhash3_x86_32-stream :
    (xs : List ℕ) (seed : ℕ)
    → murmurhash3_x86_32 (bytes_of xs) (length xs) seed ≡ stream_hash xs seed
unfolding murmurhash3_x86_32 stream_hash
murmurhash3_x86_32-stream xs seed =
    rw (bit_and_mask 2 (length xs))
      (ap (λ (t : ℕ). fmix32 (bit_xor t (length xs))) (unfold finish in finish-absorb xs seed))
