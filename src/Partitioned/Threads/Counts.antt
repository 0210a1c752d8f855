-- ===== src/Partitioned/Threads/Counts.antt =====
-- How often an address of a thread was recorded: by the table of `add_threadInfo`, and by a log.
use node2x6x2b.Base.{
  ℕ, ◌+◌, ◌≤◌, ◌<◌, ◌≡◌, refl, ap, arith, Bool, false, ◌&&◌, ◌||◌, Bool-cases, Option, none, some,
  List, [], ◌∷◌, ◌++◌, length, length-append, if◌then◌else◌, same_text, same_text→eq,
  same_text_comm, ◌∙◌, inl, inr,
}
use node2x6x2b.Partitioned.Threads.{unique, MemAddr, ThreadInfo, bump, add_mem}

-- A recorded address of a thread.
pub record Access : Type 0 where
  pub tid : List ℕ
  pub addr : List ℕ

abbrev pub one_if : Bool → ℕ
one_if b = if b then 1 else 0

-- How often an address was recorded, by the log.
unfoldable pub occurrences : List ℕ → List ℕ → List Access → ℕ
occurrences tid addr [] = 0
occurrences tid addr (a ∷ log) =
    one_if (same_text a.tid tid && same_text a.addr addr) + occurrences tid addr log

-- The same by the addresses of a thread, and by the table.
unfoldable pub mem_freq : List ℕ → List MemAddr → ℕ
mem_freq addr [] = 0
mem_freq addr (x ∷ xs) = (if same_text x.mem_addr addr then x.freq else 0) + mem_freq addr xs

unfoldable pub thread_freq : List ℕ → List ℕ → List ThreadInfo → ℕ
thread_freq tid addr [] = 0
thread_freq tid addr (t ∷ ts) =
    (if same_text t.thread_id tid then mem_freq addr t.mems else 0) + thread_freq tid addr ts

unfoldable pub known : List ℕ → List ThreadInfo → Bool
known tid [] = false
known tid (t ∷ ts) = same_text t.thread_id tid || known tid ts

-- No two threads of the table have the same identifier.
unfoldable pub Distinct : List ThreadInfo → Type 0
Distinct [] = Unit
Distinct (t ∷ ts) = (known t.thread_id ts ≡ false) × Distinct ts

-- Whether the addresses of a thread have this one.
unfoldable pub listed : List ℕ → List MemAddr → Bool
listed addr [] = false
listed addr (x ∷ xs) = same_text x.mem_addr addr || listed addr xs

-- Each address of a thread stands in the list once, and was recorded.
unfoldable pub Once : List MemAddr → Type 0
Once [] = Unit
Once (x ∷ xs) = (listed x.mem_addr xs ≡ false) × (0 < x.freq) × Once xs

module _ (addr : List ℕ) where
  -- Where the address was found, its counter is one higher.
  pub data Bumped (xs : List MemAddr) (r : Option (List MemAddr)) : Type 0 where
    miss : r ≡ none → listed addr xs ≡ false → Bumped xs r
    hit :
        (ys : List MemAddr)
        → r ≡ some ys
        → length ys ≡ length xs
        → ((a : List ℕ) → mem_freq a ys ≡ one_if (same_text addr a) + mem_freq a xs)
        → ((a : List ℕ) → listed a ys ≡ listed a xs)
        → (Once xs → Once ys)
        → Bumped xs r

  pub bump-Bumped : (xs : List MemAddr) → Bumped xs (bump addr xs)
  unfolding bump mem_freq listed Once
  bump-Bumped [] = miss refl refl
  bump-Bumped (x ∷ xs) = elim (Bool-cases (same_text x.mem_addr addr)) [
    | inl same ↦
        let at : x.mem_addr ≡ addr = same_text→eq x.mem_addr addr same in
        rw same (
          hit (record x { freq = x.freq + 1 } ∷ xs) refl refl
            (λ a. ground (arith, ap (λ t. same_text t a) at)) (λ a. refl)
            (λ (new, positive, once). (new, omega arith, once)))
    | inr other ↦ elim (bump-Bumped xs) [
      | miss q new ↦ rw (other, q) (miss refl (ground (arith, new)))
      | hit ys q same freq ids step ↦
          rw (other, q)
            (hit (x ∷ ys) refl (omega (arith, same)) (λ a. omega (arith, freq a))
              (λ a. ground (arith, ids a))
              (λ (new, positive, once). (ids x.mem_addr ∙ new, positive, step once)))
    ]
  ]

  mem_freq-append :
      (a : List ℕ) (xs : List MemAddr) (n : ℕ)
      → mem_freq a (xs ++ record { mem_addr = addr; freq = n } ∷ [])
        ≡ mem_freq a xs + (if same_text addr a then n else 0)
  unfolding mem_freq
  mem_freq-append a [] n = ground arith
  mem_freq-append a (x ∷ xs) n = omega (arith, mem_freq-append a xs n)

  listed-append :
      (a : List ℕ) (xs : List MemAddr) (n : ℕ)
      → listed a (xs ++ record { mem_addr = addr; freq = n } ∷ [])
        ≡ (listed a xs || same_text addr a)
  unfolding listed
  listed-append a [] n = ground arith
  listed-append a (x ∷ xs) n = ground (arith, listed-append a xs n)

  Once-append :
      (xs : List MemAddr)
      → listed addr xs ≡ false
      → Once xs
      → Once (xs ++ record { mem_addr = addr; freq = 1 } ∷ [])
  unfolding Once listed
  Once-append [] new once = (refl, omega arith, tt)
  Once-append (x ∷ xs) new (here, positive, once) = (
    listed-append x.mem_addr xs 1 ∙ ground (arith, here, new, same_text_comm addr x.mem_addr),
    positive,
    Once-append xs (ground arith) once,
  )

  pub add_mem-freq :
      (xs : List MemAddr)
      → length xs < unique
      → length addr < 20
      → (ys : List MemAddr) × (add_mem addr xs ≡ some ys)
        × (length ys ≤ length xs + 1)
        × ((a : List ℕ) → mem_freq a ys ≡ one_if (same_text addr a) + mem_freq a xs)
        × (Once xs → Once ys)
  unfolding add_mem
  add_mem-freq xs room short = elim (bump-Bumped xs) [
    | miss q new ↦ (
      xs ++ record { mem_addr = addr; freq = 1 } ∷ [],
      rw q (ground arith),
      omega (arith, length-append xs (record { mem_addr = addr; freq = 1 } ∷ [])),
      λ a. ground (arith, mem_freq-append a xs 1),
      Once-append xs new,
    )
    | hit ys q same freq ids once ↦ (ys, rw q refl, omega (arith, same), freq, once)
  ]
