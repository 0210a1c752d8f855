-- ===== src/Partitioned/Threads/Log.antt =====
-- The table of `add_threadInfo` against the list of the recorded addresses.
use node2x6x2b.Base.{
  ℕ, ◌+◌, ◌≤◌, ◌<◌, ◌≡◌, refl, ap, ◌∙◌, arith, true, false, ◌&&◌, ◌||◌, Bool-cases, none, some,
  List, [], ◌∷◌, ◌++◌, length, length-append, same_text, same_text_comm, same_text→eq, All, inl,
  inr,
}
use node2x6x2b.Partitioned.Threads.{
  unique, thread_max, ThreadInfo, Scan, scan_threads, append_thread, add_thread_info,
}
use node2x6x2b.Partitioned.Threads.Counts.{
  Access, one_if, occurrences, mem_freq, thread_freq, known, Distinct, listed, Once, add_mem-freq,
}

-- Each thread has at most `n` addresses.
abbrev Room : ℕ → List ThreadInfo → Type 0
Room n ts = All (λ t. length t.mems ≤ n) ts

-- No thread has an address twice.
abbrev AllOnce : List ThreadInfo → Type 0
AllOnce ts = All (λ t. Once t.mems) ts

Room-more : (n m : ℕ) (ts : List ThreadInfo) → n ≤ m → Room n ts → Room m ts
Room-more n m [] le room = room
Room-more n m (t ∷ ts) le (here, there) = (omega arith, Room-more n m ts le there)

module _ (tid addr : List ℕ) (n : ℕ) where
  -- The threads behind the loop.
  record IsScanned (ts : List ThreadInfo) (r : Scan) : Type 0 where
    flag : r.flag2 ≡ known tid ts
    freq :
        (u a : List ℕ)
        → thread_freq u a r.threads
          ≡ one_if (known tid ts && (same_text tid u && same_text addr a)) + thread_freq u a ts
    ids : (u : List ℕ) → known u r.threads ≡ known u ts
    same : length r.threads ≡ length ts
    distinct : Distinct r.threads
    room : Room (n + 1) r.threads
    once : AllOnce r.threads

  scan_threads-IsScanned :
      (ts : List ThreadInfo)
      → n < unique
      → length addr < 20
      → Distinct ts
      → Room n ts
      → AllOnce ts
      → (r : Scan) × (scan_threads tid addr ts ≡ some r) × IsScanned ts r
  unfolding scan_threads thread_freq known Distinct
  scan_threads-IsScanned [] few short distinct room once = (
    record { threads = []; flag2 = false },
    refl,
    record {
      flag = refl;
      freq = λ u a. refl;
      ids = λ u. refl;
      same = refl;
      distinct = distinct;
      room = room;
      once = once;
    },
  )
  scan_threads-IsScanned (t ∷ ts) few short (new, distinct) (here, room) (at_once, once) =
      let (r, q, s) = scan_threads-IsScanned ts few short distinct room once in
      elim (Bool-cases (same_text t.thread_id tid)) [
        | inl same ↦
            let at : t.thread_id ≡ tid = same_text→eq t.thread_id tid same in
            let (mems, q', le, freq, keep) = add_mem-freq addr t.mems (omega arith) short in
            (
              record { threads = record t { mems = mems } ∷ r.threads; flag2 = true },
              rw (same, q', q) refl,
              record {
                flag = rw same refl;
                freq = λ u a. ground (
                  arith,
                  s.freq u a,
                  freq a,
                  ap (λ i. known i ts) at,
                  ap (λ i. same_text i u) at,
                );
                ids = λ u. ground (arith, s.ids u);
                same = omega (arith, s.same);
                distinct = (s.ids t.thread_id ∙ new, s.distinct);
                room = (omega arith, s.room);
                once = (keep at_once, s.once);
              },
            )
        | inr other ↦ (
          record { threads = t ∷ r.threads; flag2 = r.flag2 },
          rw (other, q) refl,
          record {
            flag = rw other s.flag;
            freq = λ u a. ground (arith, s.freq u a);
            ids = λ u. ground (arith, s.ids u);
            same = omega (arith, s.same);
            distinct = (s.ids t.thread_id ∙ new, s.distinct);
            room = (omega arith, s.room);
            once = (at_once, s.once);
          },
        )
      ]

module _ (t : ThreadInfo) where
  thread_freq-append :
      (u a : List ℕ) (ts : List ThreadInfo)
      → thread_freq u a (ts ++ t ∷ []) ≡ thread_freq u a ts + thread_freq u a (t ∷ [])
  unfolding thread_freq
  thread_freq-append u a [] = omega arith
  thread_freq-append u a (x ∷ xs) = omega (arith, thread_freq-append u a xs)

  known-append :
      (u : List ℕ) (ts : List ThreadInfo)
      → known u (ts ++ t ∷ []) ≡ (known u ts || same_text t.thread_id u)
  unfolding known
  known-append u [] = ground arith
  known-append u (x ∷ xs) = ground (arith, known-append u xs)

  Distinct-append :
      (ts : List ThreadInfo) → known t.thread_id ts ≡ false → Distinct ts → Distinct (ts ++ t ∷ [])
  unfolding Distinct known
  Distinct-append [] new distinct = (refl, distinct)
  Distinct-append (x ∷ xs) new (here, distinct) = (
    known-append x.thread_id xs ∙ ground (arith, here, same_text_comm t.thread_id x.thread_id),
    Distinct-append xs (ground arith) distinct,
  )

  Room-append :
      (n : ℕ) (ts : List ThreadInfo) → length t.mems ≤ n → Room n ts → Room n (ts ++ t ∷ [])
  Room-append n [] few room = (few, room)
  Room-append n (x ∷ xs) few (here, room) = (here, Room-append n xs few room)

  AllOnce-append : (ts : List ThreadInfo) → Once t.mems → AllOnce ts → AllOnce (ts ++ t ∷ [])
  AllOnce-append [] last once = (last, once)
  AllOnce-append (x ∷ xs) last (here, once) = (here, AllOnce-append xs last once)

-- The table has the counts of the log, no thread twice, and no address of a thread twice: the counter of an address
-- is in one place.
pub record IsLog (ts : List ThreadInfo) (log : List Access) : Type 0 where
  pub distinct : Distinct ts
  pub once : AllOnce ts
  pub room : Room (length log) ts
  pub few : length ts ≤ length log
  pub freq : (u a : List ℕ) → thread_freq u a ts ≡ occurrences u a log

pub []-IsLog : IsLog [] []
unfolding thread_freq occurrences Distinct
[]-IsLog = record { distinct = tt; once = tt; room = tt; few = omega arith; freq = λ u a. refl }

-- Up to 100 addresses of any threads are all counted, where the texts fit their arrays: the table has no thread twice,
-- no address of a thread twice, none that was not recorded, and the counter of each is what the log has.
pub add_thread_info-IsLog :
    (pid tid addr : List ℕ) (ts : List ThreadInfo) (log : List Access)
    → IsLog ts log
    → length log < unique
    → length pid < 20
    → length tid < 10
    → length addr < 20
    → (ts' : List ThreadInfo) × (add_thread_info pid tid addr ts ≡ some ts')
      × IsLog ts' (record { tid = tid; addr = addr } ∷ log)
unfolding add_thread_info occurrences thread_freq mem_freq Once listed
add_thread_info-IsLog pid tid addr ts log is_log fewer short short' short'' =
    let (r, q, s) =
      scan_threads-IsScanned tid addr (length log) ts fewer short'' is_log.distinct is_log.room
        is_log.once in
    elim (Bool-cases (known tid ts)) [
      | inl old ↦
          let flag : r.flag2 ≡ true = s.flag ∙ old in
          (
            r.threads,
            rw (q, flag) refl,
            record {
              distinct = s.distinct;
              once = s.once;
              room =
                  Room-more (length log + 1) (length (record { tid = tid; addr = addr } ∷ log))
                    r.threads (omega arith) s.room;
              few = omega (arith, s.same, is_log.few);
              freq = λ u a. ground (arith, s.freq u a, is_log.freq u a, old);
            },
          )
      | inr new ↦
          let flag : r.flag2 ≡ false = s.flag ∙ new in
          let t : ThreadInfo = record {
            process_id = pid;
            thread_id = tid;
            mems = record { mem_addr = addr; freq = 1 } ∷ [];
          } in
          let last : append_thread pid tid addr r.threads ≡ some (r.threads ++ t ∷ []) =
            ground (arith, s.same, is_log.few) in
          (
            r.threads ++ t ∷ [],
            rw (q, flag) last,
            record {
              distinct = Distinct-append t r.threads (s.ids tid ∙ new) s.distinct;
              once = AllOnce-append t r.threads (refl, omega arith, tt) s.once;
              room =
                  Room-append t (length (record { tid = tid; addr = addr } ∷ log)) r.threads
                    (omega arith)
                    (Room-more (length log + 1) (length (record { tid = tid; addr = addr } ∷ log))
                      r.threads (omega arith) s.room);
              few = omega (arith, s.same, is_log.few, length-append r.threads (t ∷ []));
              freq = λ u a.
                  ground
                    (arith, s.freq u a, is_log.freq u a, new, thread_freq-append t u a r.threads);
            },
          )
    ]

scan_threads-unknown :
    (tid addr : List ℕ) (ts : List ThreadInfo)
    → known tid ts ≡ false
    → scan_threads tid addr ts ≡ some (record { threads = ts; flag2 = false })
unfolding scan_threads known
scan_threads-unknown tid addr [] new = refl
scan_threads-unknown tid addr (t ∷ ts) new =
    let here : same_text t.thread_id tid ≡ false = ground arith in
    let rest = scan_threads-unknown tid addr ts (ground arith) in rw (here, rest) refl

-- The thread that is one too many is written behind `threads`.
add_thread_info-full :
    (pid tid addr : List ℕ) (ts : List ThreadInfo)
    → known tid ts ≡ false
    → thread_max ≤ length ts
    → add_thread_info pid tid addr ts ≡ none
unfolding add_thread_info
add_thread_info-full pid tid addr ts new full =
    rw (scan_threads-unknown tid addr ts new) (ground arith)
