-- ===== src/Features/Extraction/Windows.antt =====
-- Which windows the extraction computes.
use native.Mathlib.Nat.{div-eq_of_lt, div-eq-sub-div}
use comm_guard.Prelude.{
  ◌≡◌, refl, ℕ, zero, suc, ◌+◌, ◌-◌, ◌*◌, ◌/◌, ◌≤◌, ◌<◌, true, Option, List, [], leb, Bool-cases,
  inl, inr, arith, if◌then◌else◌, Result, ok, ◌>>=◌,
}
use comm_guard.Features.Extraction.{
  Options, add_row, window_rows, stride_of, rows_of, feature_window,
}

-- How many windows of `width` start at `start`, `start + stride`, … and end by `stop`.
unfoldable pub window_count : (width stride start stop : ℕ) → ℕ
window_count width stride start stop =
    if leb (start + width) stop then (stop - (start + width)) / stride + 1 else 0

module _ {ℓ} {R : Type ℓ} (row : ℕ → ℕ → Result (Option R)) where
  -- The rows of `count` windows from `index` on, at the multiples of the stride.
  unfoldable pub rows_at : (stride start count index : ℕ) → Result (List R)
  rows_at stride start zero index = ok []
  rows_at stride start (suc count) index = row index (start + index * stride) >>= λ found.
      (rows_at stride start count (index + 1) >>= λ rest. ok (add_row found rest))

  module _ (width stride stop : ℕ) (moves : 0 < stride) where
    count-step :
        (start : ℕ)
        → leb (start + width) stop ≡ true
        → window_count width stride start stop
          ≡ suc (window_count width stride (start + stride) stop)
    unfolding window_count
    count-step start fits =
        let fit : start + width ≤ stop = ground arith in
        elim (Bool-cases (leb (start + stride + width) stop)) [
          | inl more ↦
              let long : stride ≤ stop - (start + width) = ground arith in
              let same : stop - (start + width) - stride ≡ stop - (start + stride + width) =
                omega arith in
              let step = div-eq-sub-div moves long in rw (fits, more, step, same) (omega arith)
          | inr fewer ↦
              let short : stop - (start + width) < stride = ground arith in
              rw (fits, fewer, div-eq_of_lt short) refl
        ]

    none_left : (start : ℕ) → stop < start + 0 → window_count width stride start stop ≡ 0
    unfolding window_count
    none_left start past = ground arith

    window_rows-rows_at :
        (fuel first index : ℕ)
        → stop < first + index * stride + fuel
        → window_rows row width stride stop fuel index (first + index * stride)
          ≡ rows_at stride first (window_count width stride (first + index * stride) stop) index
    unfolding window_rows rows_at window_count
    window_rows-rows_at zero first index enough =
        rw (none_left (first + index * stride) enough) refl
    window_rows-rows_at (suc fuel) first index enough =
        let start = first + index * stride in
        elim (Bool-cases (leb (start + width) stop)) [
          | inl fits ↦
              let next : first + (index + 1) * stride ≡ start + stride = omega arith in
              let ih = window_rows-rows_at fuel first (index + 1) (omega arith) in
              rw (count-step start fits, fits, ← next, ih, window_rows) refl
          | inr over ↦ rw (over, window_count, window_rows) refl
        ]

module _ {ℓ} {A : Type ℓ} (gpu time : A → ℕ) (o : Options) (samples0 samples1 : List A) where
  -- The loop computes the windows at the start of the interval and at every multiple of the stride after
  -- it, as long as they end within the interval: with a window of `width` there are
  -- (stop - start - width) / stride + 1 of them if one fits, and none otherwise.
  pub rows_of-rows_at :
      (start stop width : ℕ)
      → rows_of gpu time o samples0 samples1 start stop width
        ≡ rows_at
            (feature_window gpu time o samples0 samples1 width)
            (stride_of o.stride_fraction width)
            start
            (window_count width (stride_of o.stride_fraction width) start stop)
            0
  unfolding rows_of
  rows_of-rows_at start stop width =
      let stride = stride_of o.stride_fraction width in
      let moves : 0 < stride = omega arith in
      let first : start + 0 * stride ≡ start = omega arith in
      let same =
        window_rows-rows_at (feature_window gpu time o samples0 samples1 width) width stride stop
          moves (suc (stop - start)) start 0 (omega arith) in
      rw first at same
