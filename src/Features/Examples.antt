-- ===== src/Features/Examples.antt =====
-- Runs of the alignment and of the extraction on a few samples.
use comm_guard.Prelude.{
  ◌≡◌, refl, ◌≤◌, ℕ, ◌+◌, true, some, List, [], ◌∷◌, length, All, pos, arith, ok, some_of,
}
use comm_guard.Features.Alignment.{sort_by, align_samples_by_timestamp}
use comm_guard.Features.Alignment.Matching.{
  IsMatching, pair, done, align_samples_by_timestamp-IsMatching,
}
use comm_guard.Features.Extraction.{
  Window, Options, stride_of, feature_window, rows_of, extract_run_features,
}
use comm_guard.Features.Extraction.Windows.{window_count, rows_at, rows_of-rows_at}
use comm_guard.Features.Extraction.Selected.{IsDevice}
use comm_guard.Features.Extraction.Bounds.{IsWithin, extract_run_features-IsWithin}

-- A sample: its device and its time.
abbrev pub Sample : Type 0
Sample = ℕ × ℕ

abbrev pub gpu : Sample → ℕ
gpu s = s.0

abbrev pub time : Sample → ℕ
time s = s.1

abbrev left : List Sample
left = (0, 14) ∷ (0, 2) ∷ (0, 10) ∷ []

abbrev right : List Sample
right = (1, 9) ∷ (1, 15) ∷ (1, 5) ∷ []

unsorted :
    align_samples_by_timestamp time left right (pos 1)
    ≡ ok (((0, 10), (1, 9)) ∷ ((0, 14), (1, 15)) ∷ [])
unfolding align_samples_by_timestamp
unsorted = refl

abbrev one_pair : List (Sample × Sample)
one_pair = ((0, 2), (1, 5)) ∷ []

one_pair-IsMatching : IsMatching time 3 (sort_by time left) (sort_by time right) one_pair
unfolding sort_by
one_pair-IsMatching = pair (omega arith) done

align_samples_by_timestamp-IsMatching_example :
    (pairs : List (Sample × Sample)) × (align_samples_by_timestamp time left right (pos 3)
      ≡ ok pairs)
    × IsMatching time 3 (sort_by time left) (sort_by time right) pairs
    × (length one_pair ≤ length pairs)
align_samples_by_timestamp-IsMatching_example =
    align_samples_by_timestamp-IsMatching time left right 3 one_pair one_pair-IsMatching

abbrev options : Options
options = record {
  window_lengths = pos 10 ∷ [];
  stride_fraction = pos 500000;
  exclude_startup = true;
  alignment_tolerance = pos 1;
  measurement_start = some 2;
  measurement_end = some 20;
  warmup = 0;
}

abbrev pub samples_seen : List Sample
samples_seen =
    (0, 1)
    ∷ (1, 1)
    ∷ (0, 6)
    ∷ (1, 6)
    ∷ (0, 11)
    ∷ (1, 11)
    ∷ (0, 16)
    ∷ (1, 16)
    ∷ (0, 21)
    ∷ (1, 22)
    ∷ []

abbrev row_from : ℕ → ℕ → Window
row_from index start = record {
  window_seconds = 10;
  window_index = index;
  window_start = start;
  window_end = start + 10;
  startup_excluded = true;
  sample_count_gpu0 = 2;
  sample_count_gpu1 = 2;
  aligned_sample_pairs = 2;
  alignment_max_delta = 0;
}

abbrev rows : List Window
rows = row_from 0 2 ∷ row_from 1 7 ∷ []

extracted : extract_run_features gpu time options samples_seen ≡ ok rows
unfolding extract_run_features some_of
extracted = refl

extract_run_features-IsWithin_example :
    (device0 : List Sample) × (device1 : List Sample) × IsDevice gpu time 0 samples_seen device0
    × IsDevice gpu time 1 samples_seen device1
    × All (IsWithin gpu time options (sort_by time device0) (sort_by time device1) 2 (20 + 1)) rows
extract_run_features-IsWithin_example =
    extract_run_features-IsWithin gpu time options refl samples_seen rows 2 20 refl refl extracted

rows_of-rows_at_example :
    rows_of gpu time options left right 0 15 10
    ≡ rows_at
        (feature_window gpu time options left right 10)
        (stride_of options.stride_fraction 10)
        0
        (window_count 10 (stride_of options.stride_fraction 10) 0 15)
        0
rows_of-rows_at_example = rows_of-rows_at gpu time options left right 0 15 10
