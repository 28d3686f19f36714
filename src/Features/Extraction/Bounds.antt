-- ===== src/Features/Extraction/Bounds.antt =====
-- What a feature row of src/commguard/features/extraction.py is computed from.
use comm_guard.Prelude.{
  ◌≡◌, refl, ℕ, keep, suc, ◌+◌, ◌-◌, ◌≤◌, max, min, is_negative, is_zero, ltz, is_empty, true, not,
  ◌||◌, some, List, [], ◌∷◌, ◌++◌, ℤ, pos, to_nat, ltb, eqb, length, some_of, All, Bool-cases, inl,
  inr, arith, ok, >>=-eq-ok, raise_if-then,
}
use comm_guard.Features.Alignment.{sort_by, align_samples_by_timestamp}
use comm_guard.Features.Alignment.Matching.{IsMatching}
use comm_guard.Features.Alignment.Lengths.{
  align_samples_by_timestamp-length, align_samples_by_timestamp-pairs,
}
use comm_guard.Features.Extraction.Rows.{All-append, All-window_rows}
use comm_guard.Features.Extraction.Selected.{IsInterval, IsDevice, select-IsInterval, keep-IsDevice}
use comm_guard.Features.Extraction.{
  Window, Options, stride_of, start_of, end_of, select, feature_window, rows_of, all_rows,
  common_rows, samples_of, window_row, last_time, extract_run_features,
}

module _ {ℓ} {A : Type ℓ} (gpu time : A → ℕ) where
  module _ (o : Options) (samples0 samples1 : List A) where
    -- The samples that a row counts are those of each device at or after its start and before its end, at
    -- least two; the pairs that it counts, at least two, are pairs of these samples in the order of
    -- their times that differ by the tolerance at most.
    pub record IsComputed (w : Window) : Type ℓ where
      pub selected0 : List A
      pub selected1 : List A
      pub aligned : List (A × A)
      pub tolerance : ℕ
      pub lasts : w.window_end ≡ w.window_start + w.window_seconds
      pub interval0 : IsInterval gpu time w.window_start w.window_end samples0 selected0
      pub interval1 : IsInterval gpu time w.window_start w.window_end samples1 selected1
      pub count0 : w.sample_count_gpu0 ≡ length selected0
      pub count1 : w.sample_count_gpu1 ≡ length selected1
      pub allowed : o.alignment_tolerance ≡ pos tolerance
      pub matching :
          IsMatching time tolerance (sort_by time selected0) (sort_by time selected1) aligned
      pub counted : w.aligned_sample_pairs ≡ length aligned
      pub paired : 2 ≤ w.aligned_sample_pairs
      pub pairs0 : w.aligned_sample_pairs ≤ w.sample_count_gpu0
      pub pairs1 : w.aligned_sample_pairs ≤ w.sample_count_gpu1

    -- A row of a window from `low` on that ends by `high`.
    pub record IsWithin (low high : ℕ) (w : Window) : Type ℓ where
      pub starts : low ≤ w.window_start
      pub ends : w.window_end ≤ high
      pub computed : IsComputed w

    widen :
        {low high low' high' : ℕ} (rows : List Window)
        → low' ≤ low
        → high ≤ high'
        → All (IsWithin low high) rows
        → All (IsWithin low' high') rows
    widen [] h k hs = tt
    widen (w ∷ ws) h k hs =
        let first = hs.0 in
        (
          record {
            starts = let l = first.starts in omega arith;
            ends = let l = first.ends in omega arith;
            computed = first.computed;
          },
          widen ws h k hs.1,
        )

    feature_window-IsWithin :
        (width low high index start : ℕ) (w : Window)
        → low ≤ start
        → start + width ≤ high
        → feature_window gpu time o samples0 samples1 width index start ≡ ok (some w)
        → IsWithin low high w
    unfolding feature_window
    feature_window-IsWithin width low high index start w h k e =
        let selected0 = select gpu time start (start + width) samples0 in
        let selected1 = select gpu time start (start + width) samples1 in
        elim (Bool-cases (ltb (length selected0) 2 || ltb (length selected1) 2)) [
          | inl few ↦ cc (rw few at e)
          | inr many ↦
              let (aligned, e1, e2) =
                >>=-eq-ok
                  (align_samples_by_timestamp time selected0 selected1 o.alignment_tolerance) _
                  (rw many at e) in
              let (tolerance, allowed, matching) =
                align_samples_by_timestamp-pairs time selected0 selected1 o.alignment_tolerance
                  aligned e1 in
              let (short0, short1) =
                align_samples_by_timestamp-length time selected0 selected1 o.alignment_tolerance
                  aligned e1 in
              elim (Bool-cases (ltb (length aligned) 2)) [
                | inl few ↦ cc (rw few at e2)
                | inr enough ↦
                    let same : window_row gpu time o width index start selected0 selected1 aligned
                        ≡ w =
                      cc (rw enough at e2) in
                    let two : 2 ≤ length aligned = ground arith in
                    rw (← same) (record {
                      starts = h;
                      ends = k;
                      computed = record {
                        selected0 = selected0;
                        selected1 = selected1;
                        aligned = aligned;
                        tolerance = tolerance;
                        lasts = refl;
                        interval0 = select-IsInterval gpu time start (start + width) samples0;
                        interval1 = select-IsInterval gpu time start (start + width) samples1;
                        count0 = refl;
                        count1 = refl;
                        allowed = allowed;
                        matching = matching;
                        counted = refl;
                        paired = two;
                        pairs0 = short0;
                        pairs1 = short1;
                      };
                    })
              ]
        ]

    rows_of-IsWithin :
        (start stop width : ℕ) (rows : List Window)
        → rows_of gpu time o samples0 samples1 start stop width ≡ ok rows
        → All (IsWithin start stop) rows
    unfolding rows_of
    rows_of-IsWithin start stop width rows e =
        All-window_rows (IsWithin start stop) (feature_window gpu time o samples0 samples1 width)
          width (stride_of o.stride_fraction width) stop (suc (stop - start)) 0 start start rows
          (λ i s w. feature_window-IsWithin width start stop i s w) (omega arith) e

    all_rows-IsWithin :
        (start stop : ℕ) (widths : List ℤ) (rows : List Window)
        → all_rows gpu time o samples0 samples1 start stop widths ≡ ok rows
        → All (IsWithin start stop) rows
    unfolding all_rows
    all_rows-IsWithin start stop [] rows e = let same : [] ≡ rows = cc e in rw (← same) tt
    all_rows-IsWithin start stop (width ∷ widths) rows e =
        let (found, e1, e2) =
          >>=-eq-ok (rows_of gpu time o samples0 samples1 start stop (to_nat width)) _ e in
        let (rest, e3, e4) =
          >>=-eq-ok (all_rows gpu time o samples0 samples1 start stop widths) _ e2 in
        let same : found ++ rest ≡ rows = cc e4 in
        rw (← same) (
          All-append (IsWithin start stop) found rest
            (rows_of-IsWithin start stop (to_nat width) found e1)
            (all_rows-IsWithin start stop widths rest e3))

  -- The rows lie in the interval that is left after the start-up is excluded.
  module _ (o : Options) (excluded : o.exclude_startup ≡ true) where
    common_rows-IsWithin :
        (samples0 samples1 : List A) (rows : List Window) (from to : ℕ)
        → o.measurement_start ≡ some from
        → o.measurement_end ≡ some to
        → common_rows gpu time o samples0 samples1 ≡ ok rows
        → All (IsWithin o samples0 samples1 from (to + 1)) rows
    unfolding common_rows
    common_rows-IsWithin [] samples1 rows from to starts ends e =
        let same : [] ≡ rows = cc e in rw (← same) tt
    common_rows-IsWithin (a ∷ rest0) [] rows from to starts ends e =
        let same : [] ≡ rows = cc e in rw (← same) tt
    common_rows-IsWithin (a ∷ rest0) (b ∷ rest1) rows from to starts ends e =
        let first = max (time a) (time b) in
        let last =
          min (last_time gpu time (time a) rest0) (last_time gpu time (time b) rest1) + 1 in
        let begin : start_of o first ≡ max first from = rw (excluded, starts) refl in
        let finish : end_of o last ≡ min last (to + 1) = rw (excluded, ends) refl in
        let within =
          all_rows-IsWithin o (a ∷ rest0) (b ∷ rest1) (start_of o first) (end_of o last)
            o.window_lengths rows e in
        widen o (a ∷ rest0) (b ∷ rest1) rows (omega (arith, begin)) (omega (arith, finish)) within

    -- When the start-up is excluded and the manifest has the measured interval, every feature row has a
    -- window of the length that it names, from the measured start or later to one nanosecond after the
    -- measured end at most, the end excluded. The samples that it counts are exactly
    -- those of devices 0 and 1 at or after the start of the window and before its end, at least two of
    -- each. The pairs that it counts are at least two pairs of these samples, in the order of their
    -- times, that differ by the tolerance at most.
    pub extract_run_features-IsWithin :
        (samples : List A) (rows : List Window) (from to : ℕ)
        → o.measurement_start ≡ some from
        → o.measurement_end ≡ some to
        → extract_run_features gpu time o samples ≡ ok rows
        → (device0 : List A) × (device1 : List A) × IsDevice gpu time 0 samples device0
          × IsDevice gpu time 1 samples device1
          × All (IsWithin o (sort_by time device0) (sort_by time device1) from (to + 1)) rows
    unfolding extract_run_features
    extract_run_features-IsWithin samples rows from to starts ends e =
        let (_, e1) =
          raise_if-then
            (is_negative o.stride_fraction
              || is_zero o.stride_fraction
              || ltz (pos 1000000) o.stride_fraction)
            _ _ e in
        let (_, e2) =
          raise_if-then
            (is_empty o.window_lengths
              || some_of (λ w. is_negative w || is_zero w) o.window_lengths)
            _ _ e1 in
        let device0 = keep (λ s. eqb (gpu s) 0) samples in
        let device1 = keep (λ s. eqb (gpu s) 1) samples in
        (
          device0,
          device1,
          keep-IsDevice gpu time 0 samples,
          keep-IsDevice gpu time 1 samples,
          elim (Bool-cases (some_of (λ s. not (eqb (gpu s) 0 || eqb (gpu s) 1)) samples)) [
            | inl others ↦ let same : [] ≡ rows = cc (rw others at e2) in rw (← same) tt
            | inr known ↦
                common_rows-IsWithin (samples_of gpu time 0 samples) (samples_of gpu time 1 samples)
                  rows from to starts ends (rw known at e2)
          ],
        )
