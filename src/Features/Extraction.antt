-- ===== src/Features/Extraction.antt =====
-- `_feature_window` and `extract_run_features` of src/commguard/features/extraction.py. `gpu` and `time`
-- are `int(sample["gpu_index"])` and `int(sample["monotonic_ns"])` of a validated sample; window lengths,
-- the warm-up and the tolerance are whole nanoseconds, the stride fraction is in millionths. A row is
-- modelled without the columns of floating-point statistics.
pub mod Bounds
pub mod Rows
pub mod Selected
pub mod Windows
use comm_guard.Prelude.{
  ℕ, zero, suc, ◌+◌, ◌-◌, ◌*◌, ◌/◌, max, min, String, Bool, true, false, not, ◌&&◌, ◌||◌, Option,
  none, some, List, [], ◌∷◌, ◌++◌, map, ℤ, pos, negsuc, is_negative, is_zero, to_nat, ltz, leb, ltb,
  eqb, distance, length, is_empty, keep, some_of, if◌then◌else◌, value_error, Result, ok, err,
  ◌>>=◌, ◌>>◌, raise_if,
}
use comm_guard.Features.Alignment.{sort_by, align_from, align_samples_by_timestamp}

-- The columns of a feature row that say what it was computed from.
pub record Window : Type 0 where
  pub window_seconds : ℕ
  pub window_index : ℕ
  pub window_start : ℕ
  pub window_end : ℕ
  pub startup_excluded : Bool
  pub sample_count_gpu0 : ℕ
  pub sample_count_gpu1 : ℕ
  pub aligned_sample_pairs : ℕ
  pub alignment_max_delta : ℕ

-- The options of `extract_run_features`, and what it reads of the manifest.
pub record Options : Type 0 where
  pub window_lengths : List ℤ
  pub stride_fraction : ℤ
  pub exclude_startup : Bool
  pub alignment_tolerance : ℤ
  pub measurement_start : Option ℕ
  pub measurement_end : Option ℕ
  pub warmup : ℕ

-- `max(deltas)` of a list that is not empty.
abbrev maximum : List ℕ → ℕ
maximum [] = 0
maximum (d ∷ ds) = max d (maximum ds)

-- `if row is not None: rows.append(row)`
abbrev pub add_row {ℓ} : {R : Type ℓ} → Option R → List R → List R
add_row none rows = rows
add_row (some row) rows = row ∷ rows

-- `while window_start + window_ns <= end_ns`, one unit of fuel for each test; `row` is the call of
-- `_feature_window` with an index and a start.
unfoldable pub window_rows {ℓ} :
    {R : Type ℓ}
    → (ℕ → ℕ → Result (Option R))
    → (width stride stop : ℕ) → ℕ
    → ℕ
    → ℕ
    → Result (List R)
window_rows row width stride stop zero index start = ok []
window_rows row width stride stop (suc fuel) index start = elim (leb (start + width) stop) [
  | true ↦ row index start >>= λ found.
      (window_rows row width stride stop fuel (index + 1) (start + stride) >>= λ rest.
      ok (add_row found rest))
  | false ↦ ok []
]

-- `max(1, int(window_ns * stride_fraction))`
abbrev pub stride_of : ℤ → ℕ → ℕ
stride_of fraction width = max 1 (width * to_nat fraction / 1000000)

-- The start of the first window, from the start of the common interval.
abbrev pub start_of : Options → ℕ → ℕ
start_of o common =
    if o.exclude_startup
    then elim o.measurement_start [ none ↦ common + o.warmup | some t ↦ max common t ]
    else common

-- The end of the last one, from the last common time.
abbrev pub end_of : Options → ℕ → ℕ
end_of o common =
    if o.exclude_startup
    then elim o.measurement_end [ none ↦ common | some t ↦ min common (t + 1) ]
    else common

module _ {ℓ} {A : Type ℓ} (gpu time : A → ℕ) where
  -- The samples of one window.
  abbrev pub select : ℕ → ℕ → List A → List A
  select start stop = keep (λ s. leb start (time s) && ltb (time s) stop)

  -- The columns of a row.
  abbrev pub window_row :
      Options → (width index start : ℕ) → List A → List A → List (A × A) → Window
  window_row o width index start selected0 selected1 aligned = record {
    window_seconds = width;
    window_index = index;
    window_start = start;
    window_end = start + width;
    startup_excluded = o.exclude_startup;
    sample_count_gpu0 = length selected0;
    sample_count_gpu1 = length selected1;
    aligned_sample_pairs = length aligned;
    alignment_max_delta = maximum (map (λ (p : A × A). distance (time p.0) (time p.1)) aligned);
  }

  -- `_feature_window` on the samples of both devices.
  unfoldable pub feature_window :
      Options → List A → List A → (width index start : ℕ) → Result (Option Window)
  unfolding align_samples_by_timestamp keep
  feature_window o samples0 samples1 width index start =
      let selected0 = select start (start + width) samples0 in
      let selected1 = select start (start + width) samples1 in
      if ltb (length selected0) 2 || ltb (length selected1) 2
      then ok none
      else align_samples_by_timestamp time selected0 selected1 o.alignment_tolerance >>= λ aligned.
          if ltb (length aligned) 2
          then ok none
          else ok (some (window_row o width index start selected0 selected1 aligned))

  -- The windows of one length; the fuel is one more than the length of the interval, which every
  -- stride makes shorter.
  unfoldable pub rows_of : Options → List A → List A → (start stop width : ℕ) → Result (List Window)
  unfolding window_rows feature_window
  rows_of o samples0 samples1 start stop width =
      window_rows (feature_window o samples0 samples1 width) width
        (stride_of o.stride_fraction width) stop (suc (stop - start)) 0 start

  -- The loop over the window lengths.
  unfoldable pub all_rows :
      Options → List A → List A → (start stop : ℕ) → List ℤ → Result (List Window)
  unfolding rows_of
  all_rows o samples0 samples1 start stop [] = ok []
  all_rows o samples0 samples1 start stop (w ∷ ws) = do
    rows ← rows_of o samples0 samples1 start stop (to_nat w)
    rest ← all_rows o samples0 samples1 start stop ws
    ok (rows ++ rest)

  abbrev pub last_time : ℕ → List A → ℕ
  last_time t [] = t
  last_time t (s ∷ rest) = last_time (time s) rest

  -- The interval that both devices have, and the windows in it.
  unfoldable pub common_rows : Options → List A → List A → Result (List Window)
  unfolding all_rows
  common_rows o (a ∷ rest0) (b ∷ rest1) =
      let first = max (time a) (time b) in
      let last = min (last_time (time a) rest0) (last_time (time b) rest1) + 1 in
      all_rows o (a ∷ rest0) (b ∷ rest1) (start_of o first) (end_of o last) o.window_lengths
  common_rows o _ _ = ok []

  -- `by_gpu[index]`, sorted
  abbrev pub samples_of : ℕ → List A → List A
  samples_of index samples = sort_by time (keep (λ s. eqb (gpu s) index) samples)

  -- `extract_run_features`
  unfoldable pub extract_run_features : Options → List A → Result (List Window)
  unfolding common_rows
  extract_run_features o samples = do
    raise_if
        (is_negative o.stride_fraction
          || is_zero o.stride_fraction
          || ltz (pos 1000000) o.stride_fraction)
        (value_error "stride_fraction must be in (0, 1]")
    raise_if
        (is_empty o.window_lengths || some_of (λ w. is_negative w || is_zero w) o.window_lengths)
        (value_error "window lengths must be positive")
    if some_of (λ s. not (eqb (gpu s) 0 || eqb (gpu s) 1)) samples
        then ok []
        else common_rows o (samples_of 0 samples) (samples_of 1 samples)
