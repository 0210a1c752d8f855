-- ===== src/Tools/Eight.antt =====
-- A list of 8 bytes, taken apart.
use node2x6x2b.Base.{ℕ, ◌≡◌, refl, arith, List, [], ◌∷◌, length}

pub eight_bytes :
    (bytes : List ℕ)
    → length bytes ≡ 8
    → (a b c d e f g h : ℕ) × (bytes ≡ a ∷ b ∷ c ∷ d ∷ e ∷ f ∷ g ∷ h ∷ [])
eight_bytes [] eight = absurd (omega (arith, eight))
eight_bytes (a ∷ []) eight = absurd (omega (arith, eight))
eight_bytes (a ∷ b ∷ []) eight = absurd (omega (arith, eight))
eight_bytes (a ∷ b ∷ c ∷ []) eight = absurd (omega (arith, eight))
eight_bytes (a ∷ b ∷ c ∷ d ∷ []) eight = absurd (omega (arith, eight))
eight_bytes (a ∷ b ∷ c ∷ d ∷ e ∷ []) eight = absurd (omega (arith, eight))
eight_bytes (a ∷ b ∷ c ∷ d ∷ e ∷ f ∷ []) eight = absurd (omega (arith, eight))
eight_bytes (a ∷ b ∷ c ∷ d ∷ e ∷ f ∷ g ∷ []) eight = absurd (omega (arith, eight))
eight_bytes (a ∷ b ∷ c ∷ d ∷ e ∷ f ∷ g ∷ h ∷ []) eight = (a, b, c, d, e, f, g, h, refl)
eight_bytes (a ∷ b ∷ c ∷ d ∷ e ∷ f ∷ g ∷ h ∷ i ∷ rest) eight = absurd (omega (arith, eight))
