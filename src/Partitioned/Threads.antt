-- ===== src/Partitioned/Threads.antt =====
-- perf2_new.c: `struct thread_info`, `add_threadInfo`, `display_threadInfo` and `check_intersection`. A string
-- is the list of its characters without the final 0; `none` is a write behind an array.
pub mod Counts
pub mod Log
use node2x6x2b.Base.{
  ℕ, zero, suc, ◌+◌, Bool, true, false, ◌&&◌, not, Option, none, some, List, [], ◌∷◌, ◌++◌, length,
  ltb, ◌==◌, if◌then◌else◌, ◌>>=◌, guard, same_text,
}

-- `#define UNIQUE 100` and `#define THREAD_MAX 100`
abbrev pub unique : ℕ
unique = 100

abbrev pub thread_max : ℕ
thread_max = 100

-- `mem_addr[j]` and `freq[j]`
pub record MemAddr : Type 0 where
  pub mem_addr : List ℕ
  pub freq : ℕ

-- The list is that of the first `mem_addr_index` addresses.
pub record ThreadInfo : Type 0 where
  pub process_id : List ℕ
  pub thread_id : List ℕ
  pub mems : List MemAddr

-- `strcpy` into an array of `size` characters.
abbrev pub fits : ℕ → List ℕ → Bool
fits size text = ltb (length text) size

-- The loop over `j`: `none` is `flag==0`.
unfoldable pub bump : List ℕ → List MemAddr → Option (List MemAddr)
bump mem_addr [] = none
bump mem_addr (x ∷ xs) =
    let rest = bump mem_addr xs in
    if same_text x.mem_addr mem_addr
    then some (record x { freq = x.freq + 1 } ∷ xs)
    else (rest >>= λ ys. some (x ∷ ys))

-- `if(flag==0)`
abbrev append_mem : List ℕ → List MemAddr → Option (List MemAddr)
append_mem mem_addr xs =
    guard (ltb (length xs) unique && fits 20 mem_addr)
      (some (xs ++ record { mem_addr = mem_addr; freq = 1 } ∷ []))

abbrev after_bump : List ℕ → List MemAddr → Option (List MemAddr) → Option (List MemAddr)
after_bump mem_addr xs (some ys) = some ys
after_bump mem_addr xs none = append_mem mem_addr xs

unfoldable pub add_mem : List ℕ → List MemAddr → Option (List MemAddr)
add_mem mem_addr xs = after_bump mem_addr xs (bump mem_addr xs)

-- The threads, and `flag2`.
pub record Scan : Type 0 where
  pub threads : List ThreadInfo
  pub flag2 : Bool

-- The loop over `i`, which goes on behind a thread with the identifier.
unfoldable pub scan_threads : List ℕ → List ℕ → List ThreadInfo → Option Scan
scan_threads thread_id mem_addr [] = some (record { threads = []; flag2 = false })
scan_threads thread_id mem_addr (t ∷ ts) =
    let rest = scan_threads thread_id mem_addr ts in
    if same_text t.thread_id thread_id
    then (add_mem mem_addr t.mems >>= λ mems. rest >>= λ r.
        some (record { threads = record t { mems = mems } ∷ r.threads; flag2 = true }))
    else (rest >>= λ r. some (record { threads = t ∷ r.threads; flag2 = r.flag2 }))

-- `if(flag2==0)`
abbrev pub append_thread : List ℕ → List ℕ → List ℕ → List ThreadInfo → Option (List ThreadInfo)
append_thread process_id thread_id mem_addr ts =
    guard
      (ltb (length ts) thread_max
        && (fits 20 process_id && (fits 10 thread_id && fits 20 mem_addr)))
      (some (
        ts
        ++ record {
          process_id = process_id;
          thread_id = thread_id;
          mems = record { mem_addr = mem_addr; freq = 1 } ∷ [];
        }
          ∷ []))

unfoldable pub add_thread_info :
    List ℕ → List ℕ → List ℕ → List ThreadInfo → Option (List ThreadInfo)
add_thread_info process_id thread_id mem_addr ts = scan_threads thread_id mem_addr ts >>= λ r.
    if r.flag2 then some r.threads else append_thread process_id thread_id mem_addr r.threads

-- The threads that `display_threadInfo` prints, with their addresses.
unfoldable pub display_thread_info : List ThreadInfo → List ThreadInfo
display_thread_info [] = []
display_thread_info (t ∷ ts) =
    let rest = display_thread_info ts in
    if same_text t.process_id (b'0' ∷ []) then rest else t ∷ rest

-- The loop over `l`.
unfoldable pub matches : List ℕ → List MemAddr → ℕ
matches mem_addr [] = 0
matches mem_addr (y ∷ ys) =
    if same_text mem_addr y.mem_addr then suc (matches mem_addr ys) else matches mem_addr ys

-- The loop over `k`: `intersection_count`.
unfoldable pub intersection_count : List MemAddr → List MemAddr → ℕ
intersection_count [] ys = 0
intersection_count (x ∷ xs) ys = matches x.mem_addr ys + intersection_count xs ys

-- A line that `check_intersection` prints.
pub record SharedRow : Type 0 where
  pub first : ThreadInfo
  pub second : ThreadInfo
  pub count : ℕ

-- The loop over `j`, from the given one on.
unfoldable pub shared_with : ℕ → ThreadInfo → ℕ → List ThreadInfo → List SharedRow
shared_with i t j [] = []
shared_with i t j (u ∷ us) =
    let rest = shared_with i t (j + 1) us in
    if not (i == j)
    then record { first = t; second = u; count = intersection_count t.mems u.mems } ∷ rest
    else rest

-- The loop over `i`, from the given one on.
unfoldable pub shared_rows : ℕ → List ThreadInfo → List ThreadInfo → List SharedRow
shared_rows i all [] = []
shared_rows i all (t ∷ ts) = shared_with i t 0 all ++ shared_rows (i + 1) all ts

unfoldable pub check_intersection : List ThreadInfo → List SharedRow
check_intersection threads = shared_rows 0 threads threads
