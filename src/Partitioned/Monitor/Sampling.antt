-- ===== src/Partitioned/Monitor/Sampling.antt =====
-- A round of `main` that samples, from the report to the pairs of filters.
use node2x6x2b.Base.{
  ℕ, zero, suc, ◌+◌, ◌*◌, ◌^◌, ◌≤◌, ◌<◌, ◌≡◌, refl, arith, false, some, List, [], ◌∷◌, ◌++◌, All,
  length,
}
use node2x6x2b.Partitioned.Text.{type_addr}
use node2x6x2b.Partitioned.Filters.{max_filters, Bfilter}
use node2x6x2b.Partitioned.Filters.Insert.{find_index-room}
use node2x6x2b.Partitioned.Pairs.{Pair}
use node2x6x2b.Partitioned.Pairs.Grid.{grid, triangle}
use node2x6x2b.Partitioned.Pairs.Once.{check_intersection_filter-once}
use node2x6x2b.Partitioned.Threads.{display_thread_info}
use node2x6x2b.Partitioned.Threads.Counts.{Access}
use node2x6x2b.Partitioned.Input.{Tables, is_comment, read_mems, display_filter_info}
use node2x6x2b.Partitioned.Input.Line.{IsWord, Word, spaces, line_of}
use node2x6x2b.Partitioned.Input.Both.{
  IsTables, HasPlace, logged, process_string-IsTables, initialize-IsTables,
}
use node2x6x2b.Partitioned.Monitor.{sample_round}

-- A line of the report: a comment, or the four words of a sample and what stands behind them.
pub record Sample : Type 0 where
  pub indent : ℕ
  pub pid : Word
  pub tid : Word
  pub ip : Word
  pub addr : Word
  pub more : List ℕ

pub data ReportLine : Type 0 where
  note : List ℕ → ReportLine
  sample : Sample → ReportLine

abbrev pub access : Sample → Access
access s = record { tid = s.tid.text; addr = s.addr.text }

abbrev pub text_of : ReportLine → List ℕ
text_of (note text) = b'#' ∷ text
text_of (sample s) = spaces s.indent ++ line_of (s.pid ∷ s.tid ∷ s.ip ∷ s.addr ∷ []) s.more

-- The texts fit their arrays, and the address a `long` in `Hashk`.
pub record IsSample (s : Sample) : Type 0 where
  pub words : All (λ w. IsWord w.text) (s.pid ∷ s.tid ∷ s.ip ∷ s.addr ∷ [])
  pub no_comment : is_comment s.pid.text ≡ false
  pub short_pid : length s.pid.text < 10
  pub short_tid : length s.tid.text < 10
  pub short_addr : length s.addr.text < 20
  pub positive : 0 < type_addr s.addr.text
  pub small : 6 * type_addr s.addr.text < 2 ^ 63

abbrev IsReportLine : ReportLine → Type 0
IsReportLine (note text) = Unit
IsReportLine (sample s) = IsSample s

unfoldable pub report_of : List ReportLine → List (List ℕ)
report_of [] = []
report_of (l ∷ ls) = text_of l ∷ report_of ls

-- The log of the accepted samples, the last one first.
unfoldable pub log_of : ℕ → List ReportLine → List Access → List Access
log_of garbage [] log = log
log_of garbage (note text ∷ ls) log = log_of garbage ls log
log_of garbage (sample s ∷ ls) log = log_of garbage ls (logged s.pid.text (access s) garbage log)

word_is_no_comment :
    (word rest : List ℕ) → is_comment word ≡ false → is_comment (word ++ b' ' ∷ rest) ≡ false
word_is_no_comment [] rest h = refl
word_is_no_comment (c ∷ cs) rest h = h

indented_is_no_comment :
    (n : ℕ) (rest : List ℕ) → is_comment rest ≡ false → is_comment (spaces n ++ rest) ≡ false
indented_is_no_comment zero rest h = h
indented_is_no_comment (suc n) rest h = refl

sample_is_no_comment : (s : Sample) → IsSample s → is_comment (text_of (sample s)) ≡ false
unfolding line_of
sample_is_no_comment s is_sample =
    indented_is_no_comment s.indent _ (word_is_no_comment s.pid.text _ is_sample.no_comment)

-- Up to 20 lines are read without an access outside, and the tables are those of the log.
read_mems-IsTables :
    (garbage : ℕ) (ls : List ReportLine) {t : Tables} {used : ℕ} {log : List Access}
    → All IsReportLine ls
    → IsTables t used log
    → length log + length ls ≤ max_filters
    → (t' : Tables) × (used' : ℕ) × (read_mems garbage (report_of ls) t ≡ some t')
      × IsTables t' used' (log_of garbage ls log)
      × (length (log_of garbage ls log) ≤ length log + length ls)
unfolding read_mems report_of log_of
read_mems-IsTables garbage [] {t} {used} all is_tables few = (t, used, refl, is_tables, omega arith)
read_mems-IsTables garbage (note text ∷ ls) {t} {used} {log} (is_line, all) is_tables few =
    let (t', used', q, r, le) = read_mems-IsTables garbage ls all is_tables (omega arith) in
    (t', used', q, r, omega arith)
read_mems-IsTables garbage (sample s ∷ ls) {t} {used} {log} (is_line, all) is_tables few =
    let place : HasPlace t (access s) = record {
      filter = find_index-room _ is_tables.is_bank (omega (arith, is_tables.few));
      positive = is_line.positive;
      small = is_line.small;
    } in
    let (t', used', q, r, change) =
      process_string-IsTables garbage s.indent s.pid s.tid s.ip s.addr s.more is_line.words
        is_tables place (omega arith) is_line.short_pid is_line.short_tid is_line.short_addr in
    let more : length (logged s.pid.text (access s) garbage log) ≤ length log + 1 = ground arith in
    let (t'', used'', q', r', le) = read_mems-IsTables garbage ls all r (omega arith) in
    (t'', used'', rw (sample_is_no_comment s is_line, q) q', r', omega arith)

-- The first round, for a report of at most 14 lines of comments and samples: no access is outside an array, the tables
-- are those of the accepted samples, and each pair of filters is compared once. The texts have to be words that fit
-- their arrays, the first one of a line no comment, and the addresses positive numbers of which 6 times fit a `long`.
pub sample_round_complete :
    (garbage : ℕ) (s : ℕ → Bfilter) (ls : List ReportLine)
    → All IsReportLine ls
    → length ls ≤ 14
    → (t : Tables) × (used : ℕ) × (ps : List Pair) × (sample_round garbage
          (report_of ls)
          (record { threads = []; filters = s })
        ≡ some (record {
          tables = t;
          report = some (record {
            threads = display_thread_info t.threads;
            filters = display_filter_info t.filters;
            progress = record { pairs = ps; rows = grid t.filters used max_filters 0 };
          });
        }))
      × IsTables t used (log_of garbage ls [])
      × (length ps ≡ triangle used)
unfolding sample_round
sample_round_complete garbage s ls all few =
    let (t, used, q, r, le) =
      read_mems-IsTables garbage ls all (initialize-IsTables s) (omega arith) in
    let (ps, q', pairs) =
      check_intersection_filter-once t.filters used (omega (arith, le, r.few)) r.is_bank.taken in
    (t, used, ps, rw (q, q') refl, r, pairs)
