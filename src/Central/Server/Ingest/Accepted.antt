-- ===== src/Central/Server/Ingest/Accepted.antt =====
-- Acceptance: what holds of a message that `ingest` accepts, and the state that it leaves.
use Prim.Native.String.{len}
use comm_guard.Prelude.{◌≤◌, ◌≡◌, refl, true, arith, Result, ok}
use comm_guard.Central.Flow.{go, >>=-eq-go}
use comm_guard.Central.Runtime.{DateTime}
use comm_guard.Central.Messages.{Payload, Python}
use comm_guard.Central.Security.{canonical_bytes}
use comm_guard.Central.Server.{Reason, Ack, Service}
use comm_guard.Central.Server.Replies.{Message, created_of, make_ack}
use comm_guard.Central.Server.Ingest.{
  authenticate, parse_message, check_order, check_time, admit, store, ingest,
}
use comm_guard.Central.Server.Ingest.Admitted.{
  Authentic, authenticate-Authentic, authenticate-len, InOrder, check_order-InOrder, Near, IsTimely,
  check_time-IsTimely,
}
use comm_guard.Central.Server.Ingest.Parsed.{Identified, IsChecked, parse_message_sound}
use comm_guard.Central.Server.Ingest.Branches.{Outcome, admitted, answered, escaped, ingest-Outcome}

-- All that the checks of `ingest` establish.
pub record IsAdmissible (rt : Python) (s : Service) (now : DateTime) (p : Payload) (m : Message)
    : Type 0 where
  pub fits : len (canonical_bytes rt p true) ≤ s.maximum_payload_bytes
  pub authentic : Authentic rt s p
  pub identified : Identified p m
  pub checked : IsChecked rt m
  pub in_order : InOrder s p m
  pub near : Near rt s.maximum_clock_skew now (created_of m)
  pub timely : IsTimely rt s p now m

module _ (rt : Python) (s : Service) (now : DateTime) (p : Payload) where
  pub admit-IsAdmissible : (m : Message) → admit rt s p now ≡ go m → IsAdmissible rt s now p m
  unfolding admit
  admit-IsAdmissible m h =
      let (r, a, h₁) = >>=-eq-go (authenticate rt s p) _ h in
      let (m', b, h₂) = >>=-eq-go (parse_message rt s p) _ h₁ in
      let (u, c, h₃) = >>=-eq-go (check_order rt s p m') _ h₂ in
      let (v, d, h₄) = >>=-eq-go (check_time rt s p now m') _ h₃ in
      let same : m' ≡ m = ground arith in
      let (found, fine) = parse_message_sound rt s p m' b in
      let (close, timely) = check_time-IsTimely rt s p now m' (ground arith) in
      rw (← same) (record {
        fits = authenticate-len rt s p r a;
        authentic = authenticate-Authentic rt s p r a;
        identified = found;
        checked = fine;
        in_order = check_order-InOrder rt s p m' (ground arith);
        near = close;
        timely = timely;
      })

  module _ (ack_now : DateTime) where
    -- An ack with the reason `accepted` comes from a message that passed every check, and the
    -- service has stored it.
    pub ingest-accepted :
        (a : Ack)
        → (ingest rt s now ack_now p).0 ≡ ok a
        → a.reason_code ≡ Reason.accepted
        → (m : Message) × (admit rt s p now ≡ go m)
          × ((ingest rt s now ack_now p).1 ≡ store rt s now p m)
    ingest-accepted a = invert (ingest rt s now ack_now p) (ingest-Outcome rt s now ack_now p)
      where
        invert :
            (out : Result Ack × Service)
            → Outcome rt s now ack_now p out
            → out.0 ≡ ok a
            → a.reason_code ≡ Reason.accepted
            → (m : Message) × (admit rt s p now ≡ go m) × (out.1 ≡ store rt s now p m)
        invert out (admitted m h) e reason = (m, h, refl)
        invert out (answered r h) e reason = absurd (h (unfold make_ack in ground arith))
        invert out (escaped x) e reason = cc

    -- An ack with the reason `accepted` comes from a message that fits the size limit, whose sender is
    -- registered for its node and session and has signed it, whose samples passed the privacy and
    -- schema checks, whose identifier is new, whose number and batch follow the agent's last ones, and
    -- whose times are near the clock's. The service has stored exactly that message.
    pub ingest-IsAdmissible :
        (a : Ack)
        → (ingest rt s now ack_now p).0 ≡ ok a
        → a.reason_code ≡ Reason.accepted
        → (m : Message) × IsAdmissible rt s now p m
          × ((ingest rt s now ack_now p).1 ≡ store rt s now p m)
    ingest-IsAdmissible a h reason =
        let (m, e, stored) = ingest-accepted a h reason in (m, admit-IsAdmissible m e, stored)
