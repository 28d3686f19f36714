-- ===== src/Central/Server/Trace/Batches.antt =====
-- The batches that a sequence of calls accepts from one agent: their chain and their samples.
use mathlib.Core.List.{append_assoc, append-nil}
use comm_guard.Prelude.{
  String, ◌≡◌, refl, Option, some, List, [], ◌∷◌, ◌++◌, arith, ◌==◌, eq_iff, get_or, if◌then◌else◌,
  Bool-cases, inl, inr,
}
use comm_guard.Central.Messages.{Python, TelemetryBatch}
use comm_guard.Central.Server.{Evidence, Service}
use comm_guard.Central.Server.Replies.{Message, batch, heartbeat, sender_of}
use comm_guard.Central.Server.Ingest.{evidence_of, store}
use comm_guard.Central.Server.Ingest.Admitted.{Chains}
use comm_guard.Central.Server.Ingest.Accepted.{IsAdmissible}
use comm_guard.Central.Server.Ingest.Stored.{
  batch_id_if, evidence_if, last_batch-store, samples-store,
}
use comm_guard.Central.Server.Trace.{Event, after, run, log, step_cases}

-- Each batch names the one before it.
abbrev pub IsChained : Option String → List TelemetryBatch → Type 0
IsChained last [] = Unit
IsChained last (b ∷ rest) = Chains last b.previous_batch_id × IsChained (some b.batch_id) rest

-- The samples of the batches, in order, each with its batch.
abbrev pub evidence_log : List TelemetryBatch → List Evidence
evidence_log [] = []
evidence_log (b ∷ rest) = evidence_of b ++ evidence_log rest

module _ (rt : Python) (a : String) where
  abbrev pub batches_of : List Message → List TelemetryBatch
  batches_of [] = []
  batches_of (batch b ∷ ms) = let rest = batches_of ms in if b.agent_id == a then b ∷ rest else rest
  batches_of (heartbeat b ∷ ms) = batches_of ms

  IsChained-cons :
      (s t : Service) (m : Message) (ms : List Message)
      → (sender_of m ≡ a
          → (b : TelemetryBatch) → m ≡ batch b
          → Chains (s.last_batch_by_agent a) b.previous_batch_id)
      → t.last_batch_by_agent a ≡ (
          if sender_of m == a
          then batch_id_if m (s.last_batch_by_agent a)
          else s.last_batch_by_agent a)
      → IsChained (t.last_batch_by_agent a) (batches_of ms)
      → IsChained (s.last_batch_by_agent a) (batches_of (m ∷ ms))
  IsChained-cons s t (heartbeat b) ms chains e h = elim (Bool-cases (b.agent_id == a)) [
    | inl same ↦ rw (e, same) at h
    | inr other ↦ rw (e, other) at h
  ]
  IsChained-cons s t (batch b) ms chains e h = elim (Bool-cases (b.agent_id == a)) [
    | inl same ↦ rw same (chains ((eq_iff b.agent_id a).0 same) b refl, rw (e, same) at h)
    | inr other ↦ rw other (rw (e, other) at h)
  ]

  Chains-previous :
      (s : Service) (e : Event) (m : Message)
      → IsAdmissible rt s e.now e.payload m
      → sender_of m ≡ a
      → (b : TelemetryBatch) → m ≡ batch b
      → Chains (s.last_batch_by_agent a) b.previous_batch_id
  Chains-previous s e (heartbeat x) good who b is = cc
  Chains-previous s e (batch x) good who b is =
      let same : x ≡ b = cc in rw (← same) (rw (good.identified.same_agent, who) at (good.timely.1))

  -- Each batch that is accepted from one agent names the batch accepted from it before.
  pub log-IsChained :
      (s : Service) (es : List Event)
      → IsChained (s.last_batch_by_agent a) (batches_of (log rt s es))
  unfolding log
  log-IsChained s [] = tt
  log-IsChained s (e ∷ es) =
      step_cases rt
        (λ t ms.
          IsChained (t.last_batch_by_agent a) (batches_of (log rt t es))
          → IsChained (s.last_batch_by_agent a) (batches_of (ms ++ log rt t es)))
        s e
        (λ m good.
          IsChained-cons s (store rt s e.now e.payload m) m
            (log rt (store rt s e.now e.payload m) es) (Chains-previous s e m good)
            (last_batch-store rt s e.now e.payload m good.identified a))
        (λ h. h) (log-IsChained (after rt s e) es)

  evidence-cons :
      (s t : Service) (m : Message) (ms : List Message) (final : List Evidence)
      → get_or [] (t.accepted_samples_by_agent a) ≡ (
          if sender_of m == a
          then get_or [] (s.accepted_samples_by_agent a) ++ evidence_if m
          else get_or [] (s.accepted_samples_by_agent a))
      → final ≡ get_or [] (t.accepted_samples_by_agent a) ++ evidence_log (batches_of ms)
      → final ≡ get_or [] (s.accepted_samples_by_agent a) ++ evidence_log (batches_of (m ∷ ms))
  evidence-cons s t (heartbeat b) ms final e h =
      ground (arith, append-nil (get_or [] (s.accepted_samples_by_agent a)))
  evidence-cons s t (batch b) ms final e h = ground (
    arith,
    append_assoc (get_or [] (s.accepted_samples_by_agent a)) (evidence_of b)
        (evidence_log (batches_of ms)),
  )

  -- What the service holds for an agent is what it held before, and then the samples of the batches
  -- that it accepted from the agent, in order and each once.
  pub run-evidence :
      (s : Service) (es : List Event)
      → get_or [] ((run rt s es).accepted_samples_by_agent a)
        ≡ get_or [] (s.accepted_samples_by_agent a) ++ evidence_log (batches_of (log rt s es))
  unfolding run log
  run-evidence s [] = rw append-nil
  run-evidence s (e ∷ es) =
      step_cases rt
        (λ t ms.
          get_or [] ((run rt t es).accepted_samples_by_agent a)
            ≡ get_or [] (t.accepted_samples_by_agent a) ++ evidence_log (batches_of (log rt t es))
          → get_or [] ((run rt t es).accepted_samples_by_agent a)
            ≡ get_or [] (s.accepted_samples_by_agent a)
              ++ evidence_log (batches_of (ms ++ log rt t es)))
        s e
        (λ m good.
          evidence-cons s (store rt s e.now e.payload m) m
            (log rt (store rt s e.now e.payload m) es)
            (get_or [] ((run rt (store rt s e.now e.payload m) es).accepted_samples_by_agent a))
            (samples-store rt s e.now e.payload m good.identified a))
        (λ h. h) (run-evidence (after rt s e) es)
