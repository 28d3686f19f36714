-- ===== src/Central/Server/Trace/Replay.antt =====
-- Sending an accepted message again, and reusing its identifier.
use comm_guard.Prelude.{
  String, ◌≡◌, ◌≢◌, refl, sym, ◌∙◌, Bool, true, false, some, List, [], ◌∷◌, arith, ◌==◌, eq_iff,
  eq_refl, ok,
}
use comm_guard.Central.Flow.{go, answer, >>=-eq-go}
use comm_guard.Central.Runtime.{DateTime}
use comm_guard.Central.Messages.{Payload, Python}
use comm_guard.Central.Server.{AgentRegistration, Reason, Ack, Service}
use comm_guard.Central.Server.Replies.{
  Reply, Message, batch, heartbeat, id_of, message_id_of, agent_id_of, digest_of, make_ack,
}
use comm_guard.Central.Server.Ingest.{
  authenticate, parse_message, check_order, admit, store, ingest,
}
use comm_guard.Central.Server.Ingest.Accepted.{admit-IsAdmissible, ingest-accepted}
use comm_guard.Central.Server.Ingest.Stored.{seen-store, digests-store}
use comm_guard.Central.Server.Trace.{Event, after, run, step_cases}

-- What `authenticate` reads of the service.
pub record SameConfig (s t : Service) : Type 0 where
  pub registrations : s.registrations ≡ t.registrations
  pub session : s.experiment_session_id ≡ t.experiment_session_id
  pub size : s.maximum_payload_bytes ≡ t.maximum_payload_bytes

SameConfig-store :
    (rt : Python) (s : Service) (now : DateTime) (p : Payload) (m : Message)
    → SameConfig s (store rt s now p m)
unfolding store
SameConfig-store rt s now p (batch b) = record { registrations = refl; session = refl; size = refl }
SameConfig-store rt s now p (heartbeat b) = record {
  registrations = refl;
  session = refl;
  size = refl;
}

authenticate-SameConfig :
    (rt : Python) (s t : Service) (p : Payload)
    → SameConfig s t
    → authenticate rt s p ≡ authenticate rt t p
unfolding authenticate
authenticate-SameConfig rt s t p c = rw (c.registrations, c.session, c.size)

SameConfig-trans : {s t u : Service} → SameConfig s t → SameConfig t u → SameConfig s u
SameConfig-trans a b = record {
  registrations = a.registrations ∙ b.registrations;
  session = a.session ∙ b.session;
  size = a.size ∙ b.size;
}

parse_message_any :
    (rt : Python) (s t : Service) (q : Payload) → parse_message rt s q ≡ parse_message rt t q
unfolding parse_message
parse_message_any rt s t q = refl

-- The service remembers the message: an accepted identifier with its digest.
pub record Remembers (rt : Python) (origin s : Service) (p : Payload) : Type 0 where
  pub config : SameConfig origin s
  pub seen : s.seen_message_ids (message_id_of p) ≡ true
  pub digest : s.accepted_message_digests (message_id_of p) ≡ some (digest_of rt p)

-- The reply to a message whose identifier was accepted before.
abbrev pub replay_reply : Payload → Bool → Reply
replay_reply q true = record {
  is_accepted = true;
  reason = Reason.already_accepted;
  detail = "identical authenticated message was already accepted";
  agent = agent_id_of q;
}
replay_reply q false = record {
  is_accepted = false;
  reason = Reason.message_id_conflict;
  detail = "message ID was reused with different authenticated content";
  agent = agent_id_of q;
}

module _ (rt : Python) (origin : Service) (p : Payload) where
  Remembers-step :
      (s : Service) (e : Event) → Remembers rt origin s p → Remembers rt origin (after rt s e) p
  Remembers-step s e h =
      step_cases rt (λ t ms. Remembers rt origin t p) s e
        (λ m good.
          let other : id_of m ≢ message_id_of p =
            λ same. ground (arith, good.in_order.unseen, good.identified.same_id, h.seen) in
          record {
            config = SameConfig-trans h.config (SameConfig-store rt s e.now e.payload m);
            seen = ground (
              arith,
              seen-store rt s e.now e.payload m good.identified (message_id_of p),
              h.seen,
            );
            digest = ground (
              arith,
              digests-store rt s e.now e.payload m good.identified (message_id_of p),
              eq_iff (id_of m) (message_id_of p),
              h.digest,
              other,
            );
          })
        h

  Remembers-run :
      (s : Service) (es : List Event)
      → Remembers rt origin s p
      → Remembers rt origin (run rt s es) p
  unfolding run
  Remembers-run s [] h = h
  Remembers-run s (e ∷ es) h = Remembers-run (after rt s e) es (Remembers-step s e h)

  check_order-remembered :
      (s : Service) (q : Payload) (m : Message)
      → Remembers rt origin s p
      → message_id_of q ≡ message_id_of p
      → check_order rt s q m ≡ answer (replay_reply q (digest_of rt p == digest_of rt q))
  unfolding check_order
  check_order-remembered s q m h same = rw same (ground (arith, h.seen, h.digest))

  -- A remembered message passes the same checks as before, up to the check of its identifier.
  admit-remembered :
      (s : Service) (now : DateTime) (q : Payload) (r : AgentRegistration) (m : Message)
      → Remembers rt origin s p
      → message_id_of q ≡ message_id_of p
      → authenticate rt origin q ≡ go r
      → parse_message rt origin q ≡ go m
      → admit rt s q now ≡ answer (replay_reply q (digest_of rt p == digest_of rt q))
  unfolding admit
  admit-remembered s now q r m h same a parsed = rw (
    sym (authenticate-SameConfig rt origin s q h.config),
    a,
    parse_message_any rt s origin q,
    parsed,
    check_order-remembered s q m h same,
  )

admit_stages :
    (rt : Python) (s : Service) (now : DateTime) (p : Payload) (m : Message)
    → admit rt s p now ≡ go m
    → (r : AgentRegistration) × (m' : Message) × (authenticate rt s p ≡ go r)
      × (parse_message rt s p ≡ go m')
unfolding admit
admit_stages rt s now p m h =
    let (r, a, h₁) = >>=-eq-go (authenticate rt s p) _ h in
    let (m', b, h₂) = >>=-eq-go (parse_message rt s p) _ h₁ in (r, m', a, b)

module _ (rt : Python) (s : Service) (now ack_now : DateTime) (p : Payload) (a : Ack)
    (done : (ingest rt s now ack_now p).0 ≡ ok a) (accepted : a.reason_code ≡ Reason.accepted) where
  Remembers-ingest : Remembers rt s (ingest rt s now ack_now p).1 p
  Remembers-ingest =
      let (m, h, e) = ingest-accepted rt s now p ack_now a done accepted in
      let found = (admit-IsAdmissible rt s now p m h).identified in
      rw e (record {
        config = SameConfig-store rt s now p m;
        seen = ground (
          arith,
          seen-store rt s now p m found (message_id_of p),
          found.same_id,
          eq_iff (id_of m) (message_id_of p),
        );
        digest = ground (
          arith,
          digests-store rt s now p m found (message_id_of p),
          found.same_id,
          eq_iff (id_of m) (message_id_of p),
        );
      })

  -- Once a payload is accepted, sending it again, after any other calls and whatever the clock then
  -- reads, is answered by `already_accepted`, and the service stays as it is.
  pub ingest_again :
      (es : List Event) (later later_ack : DateTime)
      → ingest rt (run rt (ingest rt s now ack_now p).1 es) later later_ack p ≡ (
        ok (
            make_ack rt
              (run rt (ingest rt s now ack_now p).1 es)
              later_ack
              (message_id_of p)
              (replay_reply p true)),
        run rt (ingest rt s now ack_now p).1 es,
      )
  unfolding ingest
  ingest_again es later later_ack =
      let (m, h, e) = ingest-accepted rt s now p ack_now a done accepted in
      let (r, m', auth, parsed) = admit_stages rt s now p m h in
      rw (
        admit-remembered rt s p (run rt (ingest rt s now ack_now p).1 es) later p r m'
            (Remembers-run rt s p (ingest rt s now ack_now p).1 es Remembers-ingest) refl auth
            parsed,
        eq_refl (digest_of rt p),
      )

  -- Another authentic message with the identifier of an accepted one and another digest is refused
  -- by `message_id_conflict`, after any other calls, and the service stays as it is.
  pub ingest_conflict :
      (es : List Event) (later later_ack : DateTime) (q : Payload) (r : AgentRegistration)
      (m : Message)
      → message_id_of q ≡ message_id_of p
      → authenticate rt s q ≡ go r
      → parse_message rt s q ≡ go m
      → digest_of rt p ≢ digest_of rt q
      → ingest rt (run rt (ingest rt s now ack_now p).1 es) later later_ack q ≡ (
        ok (
            make_ack rt
              (run rt (ingest rt s now ack_now p).1 es)
              later_ack
              (message_id_of q)
              (replay_reply q false)),
        run rt (ingest rt s now ack_now p).1 es,
      )
  unfolding ingest
  ingest_conflict es later later_ack q r m same auth parsed differ = rw (
    admit-remembered rt s p (run rt (ingest rt s now ack_now p).1 es) later q r m
        (Remembers-run rt s p (ingest rt s now ack_now p).1 es Remembers-ingest) same auth parsed,
    differs (digest_of rt p) (digest_of rt q) differ,
  )
    where
      differs : (x y : String) → x ≢ y → (x == y) ≡ false
      differs x y h = ground (arith, eq_iff x y)
