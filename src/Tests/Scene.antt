-- ===== src/Tests/Scene.antt =====
-- A kernel, two samples of two threads, and the tables after them.
use node2x6x2b.Base.{ℕ, ◌<◌, ◌≡◌, refl, arith, false, some, List, [], ◌∷◌, length}
use node2x6x2b.Pagemap.{Kernel}
use node2x6x2b.Samples.{unique, Track, Globals, Sample, initialize}
use node2x6x2b.Samples.History.{IsClear}
use node2x6x2b.Samples.Thread.{Inv, initialize-Inv}
use node2x6x2b.Samples.Runs.{Event, store_all, recorded, store_all_few}

-- Page frame 7 for every address.
abbrev pub entry_bytes : List ℕ
entry_bytes = 7 ∷ 0 ∷ 0 ∷ 0 ∷ 0 ∷ 0 ∷ 0 ∷ 128 ∷ []

abbrev pub kernel : Kernel
kernel = record { page_size = 4096; open_pagemap = λ pid. some 3; pread = λ fd at. entry_bytes }

abbrev pub blank_track : Track
blank_track = record {
  mem_addr = λ j. 0;
  freq = λ j. 0;
  mem_addr_index = 0;
  filter = λ h. false;
  filter_freq = λ h. 0;
}

pub blank_track-IsClear : IsClear blank_track
blank_track-IsClear = record { no_flag = λ h p. refl; no_slot = λ h p. refl }

abbrev pub blank : Globals
blank = record {
  threads = λ i. record { pid = 0; tid = 0; core = 0; virt = blank_track; phys = blank_track };
  thread_index = 0;
  fds = 0;
}

abbrev pub sample_a : Sample
sample_a = record { pid = 5; tid = 5; addr = 8200; cpu = 0 }

abbrev sample_b : Sample
sample_b = record { pid = 6; tid = 6; addr = 8200; cpu = 1 }

abbrev pub event : Sample → Event
event s = record { kernel = kernel; uninit = 0; sample = s }

abbrev pub two_events : List Event
two_events = event sample_a ∷ event sample_b ∷ []

-- What `storeSample` leaves of the two samples, from `initialize` on.
pub two_run :
    (g : Globals) × (store_all two_events (initialize blank) ≡ some g)
    × Inv g (recorded two_events [])
two_run = store_all_few two_events (initialize blank) [] (initialize-Inv blank refl) (omega arith)

pub two_recorded : length (recorded two_events []) < unique
unfolding recorded
two_recorded = omega arith
