-- ===== src/Labels/Last.antt =====
-- Which text `findSource` leaves.
use node2x6x2b.Base.{ℕ, ◌≡◌, refl, true, false, List, [], ◌∷◌, ◌++◌, All}
use Prim.Native.String.{String}
use node2x6x2b.Labels.{MemFlag, label, all_flags, has, copy_labels, find_source}

module _ (mask : MemFlag → ℕ) (src : ℕ) where
  none_set :
      (fs : List MemFlag) (text : String)
      → All (λ f. has mask src f ≡ false) fs
      → copy_labels mask src fs text ≡ text
  unfolding copy_labels
  none_set [] text clear = refl
  none_set (f ∷ fs) text clear = rw (copy_labels, clear.0) (none_set fs text clear.1)

  last_set :
      (before after : List MemFlag) (f : MemFlag) (text : String)
      → has mask src f ≡ true
      → All (λ g. has mask src g ≡ false) after
      → copy_labels mask src (before ++ f ∷ after) text ≡ label f
  unfolding copy_labels
  last_set [] after f text set clear = rw (copy_labels, set) (none_set after (label f) clear)
  last_set (g ∷ before) after f text set clear = last_set before after f _ set clear

  -- Of all flags that are set, the last one in the order of the tests decides the text: the others' texts
  -- are overwritten.
  find_source-last :
      (before after : List MemFlag) (f : MemFlag) (text : String)
      → before ++ f ∷ after ≡ all_flags
      → has mask src f ≡ true
      → All (λ g. has mask src g ≡ false) after
      → find_source mask text src ≡ label f
  unfolding find_source
  find_source-last before after f text split set clear =
      rw (← split) (last_set before after f _ set clear)
