-- ===== src/Partitioned/Input/Both.antt =====
-- The two tables, of the addresses and of the filters, against one log.
use node2x6x2b.Base.{
  ℕ, ◌*◌, ◌^◌, ◌≤◌, ◌<◌, ◌≡◌, ◌≢◌, ◌⊎◌, refl, arith, true, ◌&&◌, Bool-cases, none, some, List, [],
  ◌∷◌, ◌++◌, All, length, if◌then◌else◌, inl, inr,
}
use node2x6x2b.Partitioned.Text.{type_tid, type_addr}
use node2x6x2b.Partitioned.Filters.{Bfilter, find_index, initialize_filters}
use node2x6x2b.Partitioned.Filters.Bank.{Entry, IsBank, initialize_filters-IsBank}
use node2x6x2b.Partitioned.Filters.Insert.{getfilters-IsBank}
use node2x6x2b.Partitioned.Threads.{unique, fits}
use node2x6x2b.Partitioned.Threads.Counts.{Access}
use node2x6x2b.Partitioned.Threads.Log.{IsLog, []-IsLog, add_thread_info-IsLog}
use node2x6x2b.Partitioned.Input.{
  Tables, tokens, is_accepted, record_access, process_tokens, process_string,
}
use node2x6x2b.Partitioned.Input.Line.{IsWord, Word, spaces, line_of, texts, tokens-line_of}

-- The filters get the numbers that the texts stand for.
unfoldable pub entries_of : List Access → List Entry
entries_of [] = []
entries_of (a ∷ log) = record { tid = type_tid a.tid; addr = type_addr a.addr } ∷ entries_of log

pub record IsTables (t : Tables) (used : ℕ) (log : List Access) : Type 0 where
  pub few : used ≤ length log
  pub is_log : IsLog t.threads log
  pub is_bank : IsBank t.filters used (entries_of log)

-- The thread has a filter, or there is one for it, and the address fits a `long` in `Hashk`.
pub record HasPlace (t : Tables) (a : Access) : Type 0 where
  pub filter : find_index t.filters (type_tid a.tid) ≢ none
  pub positive : 0 < type_addr a.addr
  pub small : 6 * type_addr a.addr < 2 ^ 63

record_access-IsTables :
    (pid : List ℕ) (a : Access) {t : Tables} {used : ℕ} {log : List Access}
    → IsTables t used log
    → HasPlace t a
    → length log < unique
    → length pid < 20
    → length a.tid < 10
    → length a.addr < 20
    → (t' : Tables) × (used' : ℕ) × (record_access pid a.tid a.addr t ≡ some t')
      × IsTables t' used' (a ∷ log)
unfolding record_access entries_of
record_access-IsTables pid a {t} {used} {log} is_tables place fewer short short' short'' =
    let (ts, q, is_log) =
      add_thread_info-IsLog pid a.tid a.addr t.threads log is_tables.is_log fewer short short'
        short'' in
    let (s, used', le, q', is_bank) =
      getfilters-IsBank t.filters used (entries_of log) a.tid a.addr is_tables.is_bank place.filter
        place.positive place.small in
    (
      record { threads = ts; filters = s },
      used',
      rw (q, q') refl,
      record { few = omega (arith, is_tables.few); is_log = is_log; is_bank = is_bank },
    )

-- What a line adds to the log.
abbrev pub logged : List ℕ → Access → ℕ → List Access → List Access
logged pid a garbage log = if is_accepted pid a.tid a.addr garbage then a ∷ log else log

-- An accepted line is recorded in both tables, and behind any other the tables are the ones before.
process_tokens-IsTables :
    (garbage : ℕ) (pid skipped : List ℕ) (a : Access) (more : List (List ℕ)) {t : Tables} {used : ℕ}
    {log : List Access}
    → IsTables t used log
    → HasPlace t a
    → length log < unique
    → length pid < 10
    → length a.tid < 10
    → length a.addr < 20
    → (t' : Tables) × (used' : ℕ) × (process_tokens garbage
          (pid ∷ a.tid ∷ skipped ∷ a.addr ∷ more)
          t
        ≡ some t')
      × IsTables t' used' (logged pid a garbage log)
      × ((is_accepted pid a.tid a.addr garbage ≡ true) ⊎ (t' ≡ t))
unfolding process_tokens
process_tokens-IsTables garbage pid skipped a more {t} {used} {log} is_tables place fewer short
      short' short'' =
    let room : (fits 10 pid && (fits 10 a.tid && fits 20 a.addr)) ≡ true = ground arith in
    elim (Bool-cases (is_accepted pid a.tid a.addr garbage)) [
      | inl accepted ↦
          let (t', used', q, r) =
            record_access-IsTables pid a is_tables place fewer (omega arith) short' short'' in
          rw (room, accepted) (t', used', q, r, inl refl)
      | inr rejected ↦ rw (room, rejected) (t, used, refl, is_tables, inr refl)
    ]

-- A line of four words, whatever stands behind them, is recorded in both tables if it is accepted, and the tables
-- are the ones before it if not. The texts have to be words that fit their arrays, the log has to have fewer than 100
-- accesses, the thread has to find a filter, and the address has to be a positive number of which 6 times fits a `long`.
pub process_string-IsTables :
    (garbage indent : ℕ) (pid tid skipped addr : Word) (more : List ℕ) {t : Tables} {used : ℕ}
    {log : List Access}
    → All (λ w. IsWord w.text) (pid ∷ tid ∷ skipped ∷ addr ∷ [])
    → IsTables t used log
    → HasPlace t (record { tid = tid.text; addr = addr.text })
    → length log < unique
    → length pid.text < 10
    → length tid.text < 10
    → length addr.text < 20
    → (t' : Tables) × (used' : ℕ) × (process_string garbage
          (spaces indent ++ line_of (pid ∷ tid ∷ skipped ∷ addr ∷ []) more)
          t
        ≡ some t')
      × IsTables t' used'
          (logged pid.text (record { tid = tid.text; addr = addr.text }) garbage log)
      × ((is_accepted pid.text tid.text addr.text garbage ≡ true) ⊎ (t' ≡ t))
unfolding process_string texts
process_string-IsTables garbage indent pid tid skipped addr more are_words is_tables place fewer
      short short' short'' =
    rw (tokens-line_of indent (pid ∷ tid ∷ skipped ∷ addr ∷ []) more are_words) (
      process_tokens-IsTables garbage pid.text skipped.text
        (record { tid = tid.text; addr = addr.text }) (tokens [] more) is_tables place fewer short
        short' short'')

pub initialize-IsTables :
    (s : ℕ → Bfilter) → IsTables (record { threads = []; filters = initialize_filters s }) 0 []
unfolding entries_of
initialize-IsTables s = record {
  few = omega arith;
  is_log = []-IsLog;
  is_bank = initialize_filters-IsBank s;
}
