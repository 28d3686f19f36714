-- ===== src/Central/Agent/Drain.antt =====
-- The queue of `NodeAgent` after an outage.
use comm_guard.Prelude.{
  ℕ, suc, String, ◌≡◌, refl, ap, true, Option, some, List, [], ◌∷◌, length, All, Result, ok,
}
use comm_guard.Central.Messages.{Payload}
use comm_guard.Central.Server.{Ack}
use comm_guard.Central.Agent.{Agent, Outcome, flush_from, flush}
use comm_guard.Central.Agent.Queue.{IsQueue, IsQueued}

-- The identifier of the last of the messages.
abbrev pub last_id : Option String → List Payload → Option String
last_id previous [] = previous
last_id previous (m ∷ rest) = last_id m.batch_id rest

module _ {S : Type 0} (send : S → Payload → Result Ack × S) where
  -- The messages are accepted, sent one after the other from the state `s` on.
  abbrev pub Accepts : S → List Payload → Type 0
  Accepts s [] = Unit {0}
  Accepts s (m ∷ rest) =
      ((ack : Ack) × ((send s m).0 ≡ ok ack) × (ack.is_accepted ≡ true)) × Accepts (send s m).1 rest

  -- Nothing is pending, the last message is the one acknowledged last, and each had its acceptance.
  pub record IsDrained (a : Agent) (ms : List Payload) (o : Outcome send (List Ack)) : Type 0 where
    pub acks : List Ack
    pub returned : o.result ≡ ok acks
    pub answered : length acks ≡ length ms
    pub accepted : All (λ (ack : Ack). ack.is_accepted ≡ true) acks
    pub empty : o.agent.pending ≡ []
    pub last : o.agent.last_batch_id ≡ last_id a.last_batch_id ms
    pub number : o.agent.next_sequence ≡ a.next_sequence

  flush_from-IsDrained :
      (a : Agent) (s : S) (ms : List Payload) (n : ℕ)
      → IsQueue n a.last_batch_id ms a.next_sequence
      → Accepts s ms
      → IsDrained a ms (flush_from send a s ms)
  unfolding flush_from
  flush_from-IsDrained a s [] n q h = record {
    acks = [];
    returned = refl;
    answered = refl;
    accepted = tt;
    empty = refl;
    last = refl;
    number = refl;
  }
  flush_from-IsDrained a s (m ∷ ms) n (sm, pm, (id, bm, q)) ((ack, sent, taken), h) =
      let rest =
        flush_from-IsDrained (record a { last_batch_id = some id }) (send s m).1 ms (suc n) q h in
      rw (flush_from, sent, taken, bm)
        (record {
          acks = ack ∷ rest.acks;
          returned = rw rest.returned refl;
          answered = ap (λ k. suc k) rest.answered;
          accepted = (taken, rest.accepted);
          empty = rest.empty;
          last = rest.last;
          number = rest.number;
        })

  -- Once the transport accepts the pending messages, sent in their order, one call of `flush` empties the
  -- queue, whatever happened before: it returns one acceptance for each message, the last of them
  -- becomes the last acknowledged batch, and no number is used up.
  pub flush-IsDrained :
      (a : Agent) (s : S)
      → IsQueued a
      → Accepts s a.pending
      → IsDrained a a.pending (flush send a s)
  unfolding flush
  flush-IsDrained a s (n, q) h = flush_from-IsDrained a s a.pending n q h
