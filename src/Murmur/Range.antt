-- ===== src/Murmur/Range.antt =====
-- The 32-bit pieces of murmurhash/murmur3.c stay below 2 ^ 32.
use node2x6x2b.Base.{ℕ, zero, suc, ◌+◌, ◌-◌, ◌*◌, ◌^◌, ◌<◌, arith, Bool-cases, leb, inl, inr}
use node2x6x2b.Base.Bits.{bit_xor-lt, bit_or-lt}
use node2x6x2b.Murmur.{
  rotl32, fmix32, getblock, scramble, round, body, tail_switch, murmurhash3_x86_32,
}
use native.Mathlib.Nat.{div-le_self}

abbrev pub IsWord : ℕ → Type 0
IsWord x = x < 2 ^ 32

abbrev IsBytes : (ℕ → ℕ) → Type 0
IsBytes bytes = (i : ℕ) → bytes i < 2 ^ 8

rotl32-IsWord : (x r : ℕ) → IsWord x → IsWord (rotl32 x r)
unfolding rotl32
rotl32-IsWord x r h = bit_or-lt 32 _ _ (omega arith) (omega (arith, div-le_self x (2 ^ (32 - r))))

fmix32-IsWord : (h : ℕ) → IsWord h → IsWord (fmix32 h)
unfolding fmix32
fmix32-IsWord h p = bit_xor-lt 32 _ _ (omega arith) (omega arith)

round-IsWord : (h k : ℕ) → IsWord (round h k)
unfolding round
round-IsWord h k = omega arith

scramble-IsWord : (k : ℕ) → IsWord (scramble k)
unfolding scramble
scramble-IsWord k = omega arith

body-IsWord : (n : ℕ) (bytes : ℕ → ℕ) (j h : ℕ) → IsWord h → IsWord (body n bytes j h)
unfolding body
body-IsWord zero bytes j h p = p
body-IsWord (suc n) bytes j h p =
    body-IsWord n bytes (j + 1) (round h (getblock bytes (j * 4))) (round-IsWord _ _)

tail_switch-IsWord : (tail : ℕ → ℕ) (rest h : ℕ) → IsWord h → IsWord (tail_switch tail rest h)
unfolding tail_switch
tail_switch-IsWord tail rest h p = elim (Bool-cases (leb 1 rest)) [
  | inl some_left ↦ rw some_left (bit_xor-lt 32 h _ p (scramble-IsWord _))
  | inr none_left ↦ rw none_left p
]

-- The result fits the `uint32_t` that it is stored in, for a length and a seed that
-- do.
murmurhash3_x86_32-IsWord :
    (bytes : ℕ → ℕ) (len seed : ℕ)
    → IsWord len
    → IsWord seed
    → IsWord (murmurhash3_x86_32 bytes len seed)
unfolding murmurhash3_x86_32
murmurhash3_x86_32-IsWord bytes len seed l s =
    fmix32-IsWord _ (bit_xor-lt 32 _ _ (tail_switch-IsWord _ _ _ (body-IsWord _ _ _ _ s)) l)
