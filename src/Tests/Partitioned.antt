-- ===== src/Tests/Partitioned.antt =====
-- perf2_new.c on concrete reports.
use node2x6x2b.Base.{
  ℕ, ◌*◌, ◌-◌, ◌^◌, same_text, ◌<◌, ◌≡◌, ◌⊎◌, refl, arith, true, some, List, [], ◌∷◌, ◌++◌, All,
  length,
}
use node2x6x2b.Partitioned.Text.{char_value, tid_loop, type_tid, addr_step, addr_loop, type_addr}
use node2x6x2b.Partitioned.Text.Numbers.{type_addr_collides}
use node2x6x2b.Partitioned.Filters.{max_filters, Bfilter, initialize_filters}
use node2x6x2b.Partitioned.Filters.Insert.{find_index-room}
use node2x6x2b.Partitioned.Pairs.{Pair}
use node2x6x2b.Partitioned.Pairs.Grid.{grid, triangle}
use node2x6x2b.Partitioned.Threads.{
  ThreadInfo, bump, add_mem, scan_threads, add_thread_info, display_thread_info,
}
use node2x6x2b.Partitioned.Threads.Counts.{
  Access, occurrences, mem_freq, thread_freq, known, Distinct, listed, Once,
}
use node2x6x2b.Partitioned.Threads.Log.{IsLog, add_thread_info-IsLog}
use node2x6x2b.Partitioned.Input.{Tables, is_accepted, process_string, display_filter_info}
use node2x6x2b.Partitioned.Input.Line.{IsWord, Word, spaces, line_of}
use node2x6x2b.Partitioned.Input.Both.{
  IsTables, HasPlace, logged, process_string-IsTables, initialize-IsTables,
}
use node2x6x2b.Partitioned.Monitor.{sample_round}
use node2x6x2b.Partitioned.Monitor.Counts.{OutLine, event, time, comment}
use node2x6x2b.Partitioned.Monitor.Sampling.{
  ReportLine, Sample, note, sample, IsSample, report_of, log_of, sample_round_complete,
}

abbrev blank_filters : ℕ → Bfilter
blank_filters =
    initialize_filters
      (λ i. record { taken = true; thread_id = i; filter = λ k. true; frequency = λ k. k })

-- Thread 12 at the address 0x7f3a.
abbrev pub tid_text : List ℕ
tid_text = b'1' ∷ b'2' ∷ []

abbrev pub addr_text : List ℕ
addr_text = b'0' ∷ b'x' ∷ b'7' ∷ b'f' ∷ b'3' ∷ b'a' ∷ []

tid_value : type_tid tid_text ≡ 12
unfolding type_tid tid_loop char_value
tid_value = refl

pub addr_positive : 0 < type_addr addr_text
unfolding type_addr addr_loop addr_step char_value
addr_positive = omega arith

pub addr_small : 6 * type_addr addr_text < 2 ^ 63
unfolding type_addr addr_loop addr_step char_value
addr_small = omega arith

abbrev word : List ℕ → ℕ → Word
word text gap = record { text = text; gap = gap }

abbrev a_sample : Sample
a_sample = record {
  indent = 2;
  pid = word (b'9' ∷ []) 3;
  tid = word tid_text 0;
  ip = word (b'0' ∷ b'x' ∷ b'1' ∷ []) 0;
  addr = word addr_text 1;
  more = b'5' ∷ b'0' ∷ [];
}

abbrev words : List Word
words = a_sample.pid ∷ a_sample.tid ∷ a_sample.ip ∷ a_sample.addr ∷ []

pid-IsWord : IsWord (b'9' ∷ [])
pid-IsWord = record { some_left = omega arith; no_space = (λ q. omega arith, tt) }

tid-IsWord : IsWord tid_text
tid-IsWord = record {
  some_left = omega arith;
  no_space = (λ q. omega arith, (λ q. omega arith, tt));
}

ip-IsWord : IsWord (b'0' ∷ b'x' ∷ b'1' ∷ [])
ip-IsWord = record {
  some_left = omega arith;
  no_space = (λ q. omega arith, (λ q. omega arith, (λ q. omega arith, tt)));
}

addr-IsWord : IsWord addr_text
addr-IsWord = record {
  some_left = omega arith;
  no_space = (
    λ q. omega arith,
    (
      λ q. omega arith,
      (λ q. omega arith, (λ q. omega arith, (λ q. omega arith, (λ q. omega arith, tt)))),
    ),
  );
}

words-AreWords : All (λ w. IsWord w.text) words
words-AreWords = (pid-IsWord, (tid-IsWord, (ip-IsWord, (addr-IsWord, tt))))

a_sample-IsSample : IsSample a_sample
a_sample-IsSample = record {
  words = words-AreWords;
  no_comment = refl;
  short_pid = omega arith;
  short_tid = omega arith;
  short_addr = omega arith;
  positive = addr_positive;
  small = addr_small;
}

abbrev a_report : List ReportLine
a_report = note (b' ' ∷ b'P' ∷ b'I' ∷ b'D' ∷ []) ∷ sample a_sample ∷ sample a_sample ∷ []

sample_round_complete_example :
    (t : Tables) × (used : ℕ) × (ps : List Pair) × (sample_round 0
        (report_of a_report)
        (record { threads = []; filters = blank_filters })
      ≡ some (record {
        tables = t;
        report = some (record {
          threads = display_thread_info t.threads;
          filters = display_filter_info t.filters;
          progress = record { pairs = ps; rows = grid t.filters used max_filters 0 };
        });
      }))
    × IsTables t used (log_of 0 a_report [])
    × (length ps ≡ triangle used)
sample_round_complete_example =
    sample_round_complete 0 blank_filters a_report
      (tt, (a_sample-IsSample, (a_sample-IsSample, tt))) (omega arith)

abbrev an_access : Access
an_access = record { tid = tid_text; addr = addr_text }

abbrev no_tables : Tables
no_tables = record { threads = []; filters = blank_filters }

no_tables-IsTables : IsTables no_tables 0 []
no_tables-IsTables =
    initialize-IsTables
      (λ i. record { taken = true; thread_id = i; filter = λ k. true; frequency = λ k. k })

an_access-HasPlace : HasPlace no_tables an_access
an_access-HasPlace = record {
  filter = find_index-room (type_tid tid_text) no_tables-IsTables.is_bank (omega arith);
  positive = addr_positive;
  small = addr_small;
}

process_string-IsTables_example :
    (t' : Tables) × (used' : ℕ) × (process_string 0
        (spaces 2 ++ line_of words (b'5' ∷ b'0' ∷ []))
        no_tables
      ≡ some t')
    × IsTables t' used' (logged (b'9' ∷ []) an_access 0 [])
    × ((is_accepted (b'9' ∷ []) tid_text addr_text 0 ≡ true) ⊎ (t' ≡ no_tables))
process_string-IsTables_example =
    process_string-IsTables 0 2 a_sample.pid a_sample.tid a_sample.ip a_sample.addr
      (b'5' ∷ b'0' ∷ []) words-AreWords no_tables-IsTables an_access-HasPlace (omega arith)
      (omega arith) (omega arith) (omega arith)

-- The address has been recorded once.
abbrev recorded_once : List ThreadInfo
recorded_once =
    record {
      process_id = b'9' ∷ [];
      thread_id = tid_text;
      mems = record { mem_addr = addr_text; freq = 1 } ∷ [];
    }
    ∷ []

recorded_once-IsLog : IsLog recorded_once (an_access ∷ [])
unfolding thread_freq mem_freq occurrences Distinct known Once listed
recorded_once-IsLog = record {
  distinct = (refl, tt);
  once = ((refl, omega arith, tt), tt);
  room = (omega arith, tt);
  few = omega arith;
  freq = λ u a. ground arith;
}

add_thread_info-IsLog_example :
    (ts' : List ThreadInfo) × (add_thread_info (b'9' ∷ []) tid_text addr_text recorded_once
      ≡ some ts')
    × IsLog ts' (an_access ∷ an_access ∷ [])
add_thread_info-IsLog_example =
    add_thread_info-IsLog (b'9' ∷ []) tid_text addr_text recorded_once (an_access ∷ [])
      recorded_once-IsLog (omega arith) (omega arith) (omega arith) (omega arith)

-- The same address again: one entry, counted twice.
recorded_twice :
    add_thread_info (b'9' ∷ []) tid_text addr_text recorded_once
    ≡ some (
        record {
          process_id = b'9' ∷ [];
          thread_id = tid_text;
          mems = record { mem_addr = addr_text; freq = 2 } ∷ [];
        }
        ∷ [])
unfolding add_thread_info scan_threads add_mem bump same_text
recorded_twice = refl

-- A `char` from 128 on: the address is -101.
negative_address : type_addr (b'0' ∷ b'x' ∷ b'1' ∷ 200 ∷ []) ≡ 2 ^ 64 - 101
unfolding type_addr addr_loop addr_step char_value
negative_address = refl

-- A comment, a line with a time, and two counts, the first one of them with a comma.
abbrev an_output : List OutLine
an_output =
    comment (b' ' ∷ b's' ∷ [])
    ∷ event (b' ' ∷ b'2' ∷ b',' ∷ b'1' ∷ b' ' ∷ []) (b'1' ∷ b'0' ∷ []) 21
    ∷ time (b' ' ∷ b'5' ∷ []) (b'0' ∷ b' ' ∷ b's' ∷ [])
    ∷ event (b'7' ∷ b' ' ∷ []) (b'2' ∷ b'0' ∷ []) 7
    ∷ []

-- 0x70a4 and 0x7104
type_addr_collides_example :
    type_addr (b'0' ∷ b'x' ∷ b'7' ∷ b'0' ∷ b'a' ∷ b'4' ∷ [])
    ≡ type_addr (b'0' ∷ b'x' ∷ b'7' ∷ b'1' ∷ b'0' ∷ b'4' ∷ [])
type_addr_collides_example =
    type_addr_collides (b'7' ∷ []) (b'4' ∷ []) 0 0 (omega arith) (omega arith)
