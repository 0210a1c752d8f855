-- ===== src/Tests/Tables.antt =====
-- `storeSample` and the Bloom filters on concrete inputs.
use node2x6x2b.Base.{◌<◌, ◌≡◌, refl, arith, none, some, [], ◌∷◌, inl}
use node2x6x2b.Samples.{Track, Globals, initialize, store_sample, first_address}
use node2x6x2b.Samples.History.{Represents, first_address-Represents, count}
use node2x6x2b.Samples.Thread.{Inv, initialize-Inv}
use node2x6x2b.Samples.Store.{stored_as, store_sample-Inv, store_sample-full}
use node2x6x2b.Samples.Runs.{store_all, recorded, store_all_few, few-HasRoom}
use node2x6x2b.Filters.{intersect_filter}
use node2x6x2b.Filters.Tables.{intersect_filter-shared}
use node2x6x2b.Tests.Scene.{
  kernel, blank_track, blank_track-IsClear, blank, sample_a, two_events, two_run, two_recorded,
}

store_sample-Inv_example :
    (g' : Globals) × (store_sample kernel 0 sample_a two_run.0 ≡ some g')
    × Inv g' (stored_as kernel 0 sample_a ∷ recorded two_events [])
store_sample-Inv_example =
    store_sample-Inv kernel 0 sample_a two_run.0 (recorded two_events []) two_run.2
      (few-HasRoom two_run.0 (recorded two_events []) 5 two_run.2 two_recorded)

-- One thread with a full table.
abbrev full_table : Globals
full_table = record {
  threads = λ i. record {
    pid = 5;
    tid = 5;
    core = 0;
    virt = record blank_track { mem_addr = λ j. j; mem_addr_index = 100 };
    phys = blank_track;
  };
  thread_index = 1;
  fds = 0;
}

store_sample-full_example : store_sample kernel 0 sample_a full_table ≡ none
store_sample-full_example =
    store_sample-full kernel 0 sample_a full_table 0 (omega arith) refl (λ j lt own. omega arith)
      (inl (omega arith))

store_all_few_example :
    (g : Globals) × (store_all two_events (initialize blank) ≡ some g)
    × Inv g (recorded two_events [])
store_all_few_example =
    store_all_few two_events (initialize blank) [] (initialize-Inv blank refl) (omega arith)

-- A table with one address.
abbrev one_address : Track
one_address = first_address 8200 blank_track

one_address-Represents : Represents one_address (8200 ∷ [])
one_address-Represents = first_address-Represents blank_track 8200 blank_track-IsClear

recorded_once : 0 < count 8200 (8200 ∷ [])
unfolding count
recorded_once = omega arith

intersect_filter-shared_example :
    let r =
      intersect_filter one_address.filter one_address.filter one_address.filter_freq
        one_address.filter_freq 0 0 in
    (0 < r.count) × (0 < r.count_freq1) × (0 < r.count_freq2)
intersect_filter-shared_example =
    intersect_filter-shared 8200 one_address-Represents one_address-Represents recorded_once
      recorded_once
