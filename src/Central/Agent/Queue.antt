-- ===== src/Central/Agent/Queue.antt =====
-- The queue of messages that `NodeAgent` holds: consecutive numbers, each naming the one before.
use Prim.Native.String.{◌++◌ as append}
use comm_guard.Prelude.{
  ℕ, suc, ◌+◌, String, ◌≡◌, refl, Option, some, List, [], ◌∷◌, ◌++◌, arith, pos, Result, ok,
  >>=-eq-ok, Result-cases, Bool-cases, inl, inr,
}
use comm_guard.Central.Json.{Value, Fields}
use comm_guard.Central.Messages.{
  Payload, Python, TelemetryBatch, batch_to_dict, batch_payload, validate_batch,
}
use comm_guard.Central.Security.{sign_message}
use comm_guard.Central.Samples.{validate_telemetry_samples}
use comm_guard.Central.Server.{Ack}
use comm_guard.Central.Protocol.{protocol_samples}
use comm_guard.Central.Agent.{
  Agent, Reading, sign_batch, previous_of, batch_for, collected_message, collect_once, flush_from,
  flush,
}

-- The messages from number `n` on, the first one naming `previous`; the next number is `next`.
abbrev pub IsQueue : ℕ → Option String → List Payload → ℕ → Type 0
IsQueue n previous [] next = n ≡ next
IsQueue n previous (m ∷ rest) next =
    (m.sequence ≡ some (pos n))
    × (m.previous_batch_id ≡ previous)
    × ((id : String) × (m.batch_id ≡ some id) × IsQueue (suc n) (some id) rest next)

abbrev pub IsQueued : Agent → Type 0
IsQueued a = (n : ℕ) × IsQueue n a.last_batch_id a.pending a.next_sequence

previous_of-same :
    (a b : Option String) (m : Payload) (rest : List Payload)
    → previous_of a (m ∷ rest) ≡ previous_of b (m ∷ rest)
unfolding previous_of
previous_of-same a b m [] = refl
previous_of-same a b m (n ∷ rest) = previous_of-same a b n rest

previous_of-tail :
    (first previous : Option String) (id : String) (m : Payload) (rest : List Payload)
    → m.batch_id ≡ some id
    → previous_of first (m ∷ rest) ≡ ok previous
    → previous_of (some id) rest ≡ ok previous
unfolding previous_of
previous_of-tail first previous id m [] b h = rw b at h
previous_of-tail first previous id m (n ∷ rest) b h = rw (previous_of-same (some id) first n rest) h

IsQueue-append :
    (n next : ℕ) (first : Option String) (ms : List Payload) (m : Payload)
    (previous : Option String) (id : String)
    → IsQueue n first ms next
    → previous_of first ms ≡ ok previous
    → m.sequence ≡ some (pos next)
    → m.previous_batch_id ≡ previous
    → m.batch_id ≡ some id
    → IsQueue n first (ms ++ (m ∷ [])) (next + 1)
unfolding previous_of
IsQueue-append n next first [] m previous id q h s p b =
    (ground arith, cc (p, h), (id, b, omega arith))
IsQueue-append n next first (x ∷ ms) m previous id (sx, px, (ix, bx, q)) h s p b = (
  sx,
  px,
  (
    ix,
    bx,
    IsQueue-append (suc n) next (some ix) ms m previous id q
        (previous_of-tail first previous ix x ms bx h) s p b,
  ),
)

-- A signed message is the batch with a signature.
sign_batch-eq :
    (rt : Python) (secret : String) (b : TelemetryBatch) (m : Payload)
    → sign_batch rt secret b ≡ ok m
    → (signature : String) × (m ≡ batch_payload (record b { signature = some signature }))
unfolding sign_batch batch_to_dict
sign_batch-eq rt secret b m h =
    let (unsigned, _, h1) = >>=-eq-ok (batch_to_dict rt b) _ h in
    let (signature, _, h2) = >>=-eq-ok (sign_message rt unsigned secret) _ h1 in
    let (_, _, h3) = >>=-eq-ok (validate_batch rt (record b { signature = some signature })) _ h2 in
    (signature, cc h3)

module _ (rt : Python) (dict_of : Value → Result Fields) where
  -- What `collect_once` appends is a batch with the agent's next number, chained to the queue.
  collected_message-eq :
      (a : Agent) (r : Reading) (m : Payload)
      → collected_message rt dict_of a r ≡ ok m
      → (samples : List Fields) × (previous : Option String) × (signature : String) × (previous_of
            a.last_batch_id a.pending
          ≡ ok previous)
        × (m
            ≡ batch_payload
                (record (batch_for rt a r samples previous) { signature = some signature }))
  unfolding collected_message
  collected_message-eq a r m h =
      let (backend, _, h1) = >>=-eq-ok r.collected _ h in
      let (samples, _, h2) =
        >>=-eq-ok (protocol_samples rt dict_of r.sample_uuids 0 a.configuration_hash backend) _
          h1 in
      let (_, _, h3) = >>=-eq-ok (validate_telemetry_samples rt samples) _ h2 in
      let (previous, p, h4) = >>=-eq-ok (previous_of a.last_batch_id a.pending) _ h3 in
      let (signature, e) =
        sign_batch-eq rt a.hmac_secret (batch_for rt a r samples previous) m h4 in
      (samples, previous, signature, p, e)

  -- A call of `collect_once` that returns keeps the queue consecutive and chained.
  pub collect_once-IsQueued :
      (a a' : Agent) (r : Reading) (id : String)
      → collect_once rt dict_of a r ≡ ok (id, a')
      → IsQueued a
      → IsQueued a'
  unfolding collect_once
  collect_once-IsQueued a a' r id h (n, q) =
      let (m, e, h1) = >>=-eq-ok (collected_message rt dict_of a r) _ h in
      let (samples, previous, signature, p, same) = collected_message-eq a r m e in
      let grown = record a {
        pending = a.pending ++ (m ∷ []);
        next_sequence = a.next_sequence + 1;
      } in
      let result : grown ≡ a' = cc h1 in
      rw (← result) (
        n,
        IsQueue-append n a.next_sequence a.last_batch_id a.pending m previous
            (append "batch-" r.batch_uuid) q p (rw same refl) (rw same refl) (rw same refl),
      )

module _ {S : Type 0} (send : S → Payload → Result Ack × S) where
  flush_from-IsQueued :
      (a : Agent) (s : S) (ms : List Payload) (n : ℕ)
      → IsQueue n a.last_batch_id ms a.next_sequence
      → IsQueued (flush_from send a s ms).agent
  unfolding flush_from
  flush_from-IsQueued a s [] n q = (n, q)
  flush_from-IsQueued a s (m ∷ ms) n (sm, pm, (im, bm, q)) = elim (Result-cases (send s m).0) [
    | inl (e, h) ↦ rw (flush_from, h) (n, (sm, pm, (im, bm, q)))
    | inr (ack, h) ↦ elim (Bool-cases ack.is_accepted) [
      | inl taken ↦
          rw (flush_from, h, taken, bm)
            (flush_from-IsQueued (record a { last_batch_id = some im }) (send s m).1 ms (suc n) q)
      | inr refused ↦ rw (flush_from, h, refused) (n, (sm, pm, (im, bm, q)))
    ]
  ]

  -- Whatever the transport answers or raises, `flush` keeps the queue consecutive and chained to the
  -- last acknowledged batch.
  pub flush-IsQueued : (a : Agent) (s : S) → IsQueued a → IsQueued (flush send a s).agent
  unfolding flush
  flush-IsQueued a s (n, q) = flush_from-IsQueued a s a.pending n q
