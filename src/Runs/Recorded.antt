-- ===== src/Runs/Recorded.antt =====
-- Each run that src/commguard/orchestrator.py records as not completed has a reason.
use comm_guard.Prelude.{
  ℕ, zero, suc, ◌≡◌, ◌≢◌, refl, String, Bool, true, false, not, ◌&&◌, ◌||◌, Option, none, some,
  List, [], ◌∷◌, ◌++◌, map, ℤ, pos, is_zero, is_some, negsuc, non_empty, arith, ◌⊎◌, inl, inr,
  Option-cases, Bool-cases, Option-cases, All, is_empty, eq→str_eq, ok,
}
use comm_guard.Central.Json.{Fields}
use comm_guard.Runs.Launcher.{Deviates, Participation, validate_participation}
use comm_guard.Runs.Reasons.{
  IsText, non_empty-append, All-append, joined_problems-IsText, validate_participation-All,
}
use comm_guard.Runs.Outcome.{
  timeout_code, LaunchResult, launch_result, joined_problems, Failure, failure_category, error_of,
  recorded_failure, exit_status_of,
}

-- A failure with a reason that is not empty.
abbrev pub IsExplained : Failure → Type 0
IsExplained none = ⊥
IsExplained (some (category, reason)) = IsText reason

-- What is recorded of a run.
pub record IsRecorded (decimal : ℤ → String) (mentions : String → Bool) (r : LaunchResult)
    (collector_error : Option String) : Type 0 where
  pub is_status :
      (exit_status_of r collector_error ≡ "timeout")
      ⊎ ((exit_status_of r collector_error ≡ "completed")
          ⊎ (exit_status_of r collector_error ≡ "failed"))
  pub completed :
      exit_status_of r collector_error ≡ "completed"
      → (r.return_code ≡ pos 0)
        × (r.participation_valid ≡ true)
        × (r.timed_out ≡ false)
        × (error_of collector_error ≡ none)
        × (r.participation_problems ≡ [])
  pub explained :
      exit_status_of r collector_error ≢ "completed"
      → IsExplained (recorded_failure decimal mentions r collector_error)
  pub codes : r.timed_out ≡ true → All (λ e. e.1 ≢ 0) r.rank_exit_codes

error_of-IsText :
    (error : Option String) {message : String} → error_of error ≡ some message → IsText message
error_of-IsText none h = cc
error_of-IsText (some text) {message = message} h = elim (Bool-cases (non_empty text)) [
  | inl full ↦ let e : text ≡ message = cc (rw full at h) in rw (← e) full
  | inr hollow ↦ cc (rw hollow at h)
]

joined_problems-All :
    (texts : List String)
    → All IsText texts
    → is_empty texts ≡ false
    → IsText (joined_problems texts)
joined_problems-All [] h full = cc
joined_problems-All (s ∷ texts) h full = joined_problems-IsText s texts h.0

is_zero-eq : (n : ℤ) → is_zero n ≡ true → n ≡ pos 0
is_zero-eq (pos zero) h = refl
is_zero-eq (pos (suc n)) h = cc
is_zero-eq (negsuc n) h = cc

is_some-none : (o : Option String) → is_some o ≡ false → o ≡ none
is_some-none none h = refl
is_some-none (some s) h = cc

is_empty-eq : (xs : List String) → is_empty xs ≡ true → xs ≡ []
is_empty-eq [] h = refl
is_empty-eq (x ∷ xs) h = cc

status_cases :
    (r : LaunchResult) (error : Option String)
    → (exit_status_of r error ≡ "timeout")
      ⊎ ((exit_status_of r error ≡ "completed") ⊎ (exit_status_of r error ≡ "failed"))
unfolding exit_status_of
status_cases r error = elim (Bool-cases r.timed_out) [
  | inl late ↦ inl (rw late refl)
  | inr in_time ↦
      elim (Bool-cases
        (is_zero r.return_code && (r.participation_valid && not (is_some (error_of error))))) [
          | inl passed ↦ inr (inl (rw (in_time, passed) refl))
          | inr ill ↦ inr (inr (rw (in_time, ill) refl))
        ]
]

timeout_codes :
    (code : ℤ) (late : Bool) (p : Participation)
    → (launch_result code late p).timed_out ≡ true
    → All (λ e. e.1 ≢ 0) (launch_result code late p).rank_exit_codes
unfolding launch_result
timeout_codes code false p h = cc
timeout_codes code true p h = codes p.rank_exit_codes
  where
    codes : (xs : List (String × ℕ)) → All (λ e. e.1 ≢ 0) (map timeout_code xs)
    codes [] = tt
    codes ((rank, zero) ∷ xs) = (λ e. omega arith, codes xs)
    codes ((rank, suc n) ∷ xs) = (λ e. omega arith, codes xs)

launch_result-All :
    (code : ℤ) (late : Bool) (p : Participation)
    → All IsText p.problems
    → All IsText (launch_result code late p).participation_problems
unfolding launch_result
launch_result-All code true p h = All-append p.problems _ h (refl, tt)
launch_result-All code false p h = h

launch_result-decided :
    (code : ℤ) (late : Bool) (p : Participation)
    → p.valid ≡ is_empty p.problems
    → (launch_result code late p).participation_valid
      ≡ is_empty (launch_result code late p).participation_problems
unfolding launch_result
launch_result-decided code true p h = not_empty p.problems
  where
    not_empty :
        (xs : List String) → false ≡ is_empty (xs ++ "torchrun exceeded the hard timeout" ∷ [])
    not_empty [] = refl
    not_empty (x ∷ xs) = refl
launch_result-decided code false p h = h

module _ (decimal : ℤ → String) (mentions : String → Bool) (r : LaunchResult)
    (collector_error : Option String) (texts : All IsText r.participation_problems)
    (decided : r.participation_valid ≡ is_empty r.participation_problems) where
  completed_unless :
      r.timed_out ≡ false
      → r.participation_valid ≡ true
      → is_zero r.return_code ≡ true
      → error_of collector_error ≡ none
      → exit_status_of r collector_error ≡ "completed"
  unfolding exit_status_of
  completed_unless in_time valid well no_error = rw (in_time, valid, well, no_error) refl

  category-IsExplained :
      error_of collector_error ≡ none
      → exit_status_of r collector_error ≢ "completed"
      → IsExplained (failure_category decimal mentions r)
  unfolding failure_category
  category-IsExplained no_error apart = elim (Bool-cases r.timed_out) [
    | inl late ↦ rw late refl
    | inr in_time ↦ elim (Bool-cases (mentions "out of memory")) [
      | inl memory ↦ rw (in_time, memory) refl
      | inr m ↦ elim (Bool-cases (mentions "rendezvous" || mentions "address already in use")) [
        | inl port ↦ rw (in_time, m, port) refl
        | inr n ↦ elim (Bool-cases (mentions "nccl")) [
          | inl nccl ↦ rw (in_time, m, n, nccl) refl
          | inr o ↦ elim (Bool-cases r.participation_valid) [
            | inr invalid ↦
                rw (in_time, m, n, o, invalid)
                  (joined_problems-All r.participation_problems texts (ground arith))
            | inl valid ↦ elim (Bool-cases (is_zero r.return_code)) [
              | inl well ↦ absurd (apart (completed_unless in_time valid well no_error))
              | inr ill ↦
                  rw (in_time, m, n, o, valid, ill)
                    (non_empty-append "torchrun exited " (decimal r.return_code) refl)
            ]
          ]
        ]
      ]
    ]
  ]

  recorded-IsExplained :
      exit_status_of r collector_error ≢ "completed"
      → IsExplained (recorded_failure decimal mentions r collector_error)
  unfolding recorded_failure
  recorded-IsExplained apart = elim (Option-cases (error_of collector_error)) [
    | inl no_error ↦ rw (no_error, recorded_failure) (category-IsExplained no_error apart)
    | inr (message, there) ↦ rw (there, recorded_failure) (error_of-IsText collector_error there)
  ]

  abbrev well : Bool
  well =
      is_zero r.return_code && (r.participation_valid && not (is_some (error_of collector_error)))

  status_completed :
      exit_status_of r collector_error ≡ "completed"
      → (r.return_code ≡ pos 0)
        × (r.participation_valid ≡ true)
        × (r.timed_out ≡ false)
        × (error_of collector_error ≡ none)
        × (r.participation_problems ≡ [])
  unfolding exit_status_of
  status_completed done = elim (Bool-cases r.timed_out) [
    | inl late ↦ let e = eq→str_eq _ _ (rw late at done) in absurd (ground arith)
    | inr in_time ↦ elim (Bool-cases well) [
      | inr ill ↦ let e = eq→str_eq _ _ (rw (in_time, ill) at done) in absurd (ground arith)
      | inl passed ↦ (
        is_zero-eq r.return_code (ground arith),
        ground arith,
        in_time,
        is_some-none (error_of collector_error) (ground arith),
        is_empty-eq r.participation_problems (ground arith),
      )
    ]
  ]

-- The status of a run is one of three. A completed run ended with return code 0 and in time, without an error
-- of the telemetry collector and with no problem of participation; any other run has a failure category
-- with a reason that is not empty; and after a timeout no rank has exit code 0.
pub launch_result-IsRecorded :
    (deviates : Deviates) (events_0 events_1 : List Fields) (mode : String)
    (designation : Option String) (decimal : ℤ → String) (mentions : String → Bool)
    (return_code : ℤ) (timed_out : Bool) (collector_error : Option String) {p : Participation}
    → validate_participation deviates events_0 events_1 mode designation ≡ ok p
    → IsRecorded decimal mentions (launch_result return_code timed_out p) collector_error
launch_result-IsRecorded deviates events_0 events_1 mode designation decimal mentions code late
      error {p = p} h =
    let (texts, decided) =
      validate_participation-All deviates events_0 events_1 mode designation h in
    let r = launch_result code late p in
    let texts_r = launch_result-All code late p texts in
    let decided_r = launch_result-decided code late p decided in
    record {
      is_status = status_cases r error;
      completed = status_completed decimal mentions r error texts_r decided_r;
      explained = recorded-IsExplained decimal mentions r error texts_r decided_r;
      codes = timeout_codes code late p;
    }
