-- ===== src/Partitioned/Input/Line.antt =====
-- `strtok` gives back the words of a line.
use node2x6x2b.Base.{
  ℕ, zero, suc, ◌<◌, ◌≡◌, ◌≢◌, refl, sym, ap, ◌∙◌, arith, List, [], ◌∷◌, ◌++◌, length, append_assoc,
  ◌==◌, All, append-nil, false,
}
use node2x6x2b.Partitioned.Input.{tokens}

-- A word has a character, and no space.
pub record IsWord (word : List ℕ) : Type 0 where
  pub some_left : 0 < length word
  pub no_space : All (λ c. c ≢ b' ') word

-- The words, each with one more space behind it than the number beside it says.
pub record Word : Type 0 where
  pub text : List ℕ
  pub gap : ℕ

abbrev pub spaces : ℕ → List ℕ
spaces zero = []
spaces (suc n) = b' ' ∷ spaces n

unfoldable pub line_of : List Word → List ℕ → List ℕ
line_of [] more = more
line_of (w ∷ ws) more = w.text ++ (b' ' ∷ spaces w.gap ++ line_of ws more)

unfoldable pub texts : List Word → List (List ℕ)
texts [] = []
texts (w ∷ ws) = w.text ∷ texts ws

tokens-spaces : (n : ℕ) (rest : List ℕ) → tokens [] (spaces n ++ rest) ≡ tokens [] rest
unfolding tokens
tokens-spaces zero rest = refl
tokens-spaces (suc n) rest = tokens-spaces n rest

-- Behind a first character.
tokens-rest :
    (c : ℕ) (cs word rest : List ℕ)
    → All (λ d. d ≢ b' ') word
    → tokens (c ∷ cs) (word ++ (b' ' ∷ rest)) ≡ (c ∷ cs ++ word) ∷ tokens [] rest
unfolding tokens
tokens-rest c cs [] rest no_space =
    ap {B = List (List ℕ)} (λ l. (c ∷ l) ∷ tokens [] rest) (sym (append-nil cs))
tokens-rest c cs (d ∷ ds) rest (other, no_space) =
    let go : (d == b' ') ≡ false = ground arith in
    rw go (
      tokens-rest c (cs ++ d ∷ []) ds rest no_space
      ∙ ap {B = List (List ℕ)} (λ l. (c ∷ l) ∷ tokens [] rest) (append_assoc cs (d ∷ []) ds))

tokens-word :
    (word rest : List ℕ) → IsWord word → tokens [] (word ++ (b' ' ∷ rest)) ≡ word ∷ tokens [] rest
unfolding tokens
tokens-word [] rest is_word = absurd (omega (arith, is_word.some_left))
tokens-word (d ∷ ds) rest is_word =
    let (other, no_space) = is_word.no_space in
    let go : (d == b' ') ≡ false = ground arith in rw go (tokens-rest d [] ds rest no_space)

-- The first tokens of a line are its first words, whatever the gaps, and the others are those of the rest.
pub tokens-line_of :
    (indent : ℕ) (words : List Word) (more : List ℕ)
    → All (λ w. IsWord w.text) words
    → tokens [] (spaces indent ++ line_of words more) ≡ texts words ++ tokens [] more
unfolding line_of texts
tokens-line_of indent [] more all = tokens-spaces indent more
tokens-line_of indent (w ∷ ws) more (is_word, all) =
    tokens-spaces indent (w.text ++ (b' ' ∷ spaces w.gap ++ line_of ws more))
    ∙ tokens-word w.text (spaces w.gap ++ line_of ws more) is_word
    ∙ ap {B = List (List ℕ)} (λ l. w.text ∷ l) (tokens-line_of w.gap ws more all)
