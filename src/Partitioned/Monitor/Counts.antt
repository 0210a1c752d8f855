-- ===== src/Partitioned/Monitor/Counts.antt =====
-- The counts that `readOutputFile` reads from the output of `perf stat`.
use node2x6x2b.Base.{
  ℕ, zero, suc, ◌+◌, ◌-◌, ◌*◌, ◌^◌, ◌<◌, ◌≡◌, ◌≢◌, false, List, [], ◌∷◌, ◌++◌, length,
  if◌then◌else◌, u64, All,
}
use node2x6x2b.Hash.Decimal.{decimal}
use node2x6x2b.Partitioned.Input.{is_comment}
use node2x6x2b.Partitioned.Monitor.{num_events, is_digit, has_digit}

unfoldable pub digits_of : List ℕ → List ℕ
digits_of [] = []
digits_of (c ∷ cs) = if is_digit c then c ∷ digits_of cs else digits_of cs

-- The number of the digits behind those of `num`.
num_loop : ℕ → List ℕ → ℕ
num_loop num [] = num
num_loop num (c ∷ cs) = num_loop (u64 (num * 10 + c + 2 ^ 64 - 48)) cs

-- What stands before the name of the event: no point, and no `r`.
abbrev pub IsPlain : List ℕ → Type 0
IsPlain before = All (λ c. (c ≢ b'.') × (c ≢ b'r')) before

-- A line of the file: that of an event, one with a point, a comment, or one without a digit.
pub data OutLine : Type 0 where
  event : (before more : List ℕ) (n : ℕ) → OutLine
  time : (before more : List ℕ) → OutLine
  comment : List ℕ → OutLine
  blank : List ℕ → OutLine

unfoldable pub text_of : OutLine → List ℕ
text_of (event before more n) = before ++ b'r' ∷ more
text_of (time before more) = before ++ b'.' ∷ more
text_of (comment text) = b'#' ∷ text
text_of (blank text) = text

-- The digits before the event are those of its count; `perf` may group them.
unfoldable pub IsLine : OutLine → Type 0
IsLine (event before more n) =
    IsPlain before
    × (is_comment before ≡ false)
    × (digits_of before ≡ decimal 20 n [])
    × (n < 2 ^ 63)
IsLine (time before more) = IsPlain before
IsLine (comment text) = Unit
IsLine (blank text) = has_digit text ≡ false

unfoldable pub file_of : List OutLine → List (List ℕ)
file_of [] = []
file_of (l ∷ ls) = text_of l ∷ file_of ls

unfoldable pub counts_of : List OutLine → List ℕ
counts_of [] = []
counts_of (event before more n ∷ ls) = n ∷ counts_of ls
counts_of (time before more ∷ ls) = counts_of ls
counts_of (comment text ∷ ls) = counts_of ls
counts_of (blank text ∷ ls) = counts_of ls

unfoldable pub take : ℕ → List ℕ → List ℕ
take zero xs = []
take (suc k) [] = []
take (suc k) (x ∷ xs) = x ∷ take k xs

-- The room that the counts read so far leave.
abbrev room_for : List ℕ → ℕ
room_for counts = num_events - length counts
