-- ===== src/Central/Transport/Saved.antt =====
-- The files of `OfflineFileTransport` are written once.
use comm_guard.Prelude.{
  String, ◌≡◌, refl, Bool, not, ◌&&◌, none, some, ◌==◌, is_some, str_eq→eq, Bool-cases,
  Option-cases, Result-cases, inl, inr, ◌⊎◌, Dict, put, Exception, Result, ok, err, raise_if-then,
}
use comm_guard.Central.Runtime.{DateTime}
use comm_guard.Central.Messages.{Payload, Python}
use comm_guard.Central.Server.{Ack, Service}
use comm_guard.Central.Server.Ingest.{ingest}
use comm_guard.Central.Transport.{
  Transport, safe_message_id, existing_matches, save_request, ack_to_dict, write_ack, after_ingest,
  send_offline,
}

put-keeps :
    {A : Type 0} (d : Dict A) (k j : String) (old new : A)
    → d k ≡ none
    → d j ≡ some old
    → put d k new j ≡ some old
unfolding put
put-keeps d k j old new free taken = elim (Bool-cases (k == j)) [
  | inl same ↦ let e : k ≡ j = str_eq→eq k j same in cc (free, taken, e)
  | inr other ↦ rw other taken
]

write_ack-keeps :
    (t : Transport) (identifier k : String) (saved ack : Ack) (r : Result Ack)
    → t.acknowledgments identifier ≡ none
    → t.acknowledgments k ≡ some saved
    → (write_ack t identifier ack r).1.acknowledgments k ≡ some saved
write_ack-keeps t identifier k saved ack (err e) free h = h
write_ack-keeps t identifier k saved ack (ok new) free h =
    put-keeps t.acknowledgments identifier k saved new free h

write_ack-requests :
    (t : Transport) (identifier : String) (ack : Ack) (r : Result Ack)
    → (write_ack t identifier ack r).1.requests ≡ t.requests
write_ack-requests t identifier ack (err e) = refl
write_ack-requests t identifier ack (ok new) = refl

after_ingest-keeps :
    (rt : Python) (t : Transport) (identifier k : String) (saved : Ack) (r : Result Ack × Service)
    → t.acknowledgments k ≡ some saved
    → (after_ingest rt t identifier r).1.acknowledgments k ≡ some saved
after_ingest-keeps rt t identifier k saved (err e, s) h = h
after_ingest-keeps rt t identifier k saved (ok ack, s) h =
    elim (Option-cases (t.acknowledgments identifier)) [
      | inl free ↦ rw free (
          write_ack-keeps (record t { service = s }) identifier k saved ack (ack_to_dict rt ack)
            free h)
      | inr (old, kept) ↦ rw kept h
    ]

save_request-eq :
    (rt : Python) (t t' : Transport) (identifier : String) (message : Payload)
    → save_request rt t identifier message ≡ ok t'
    → (t ≡ t')
      ⊎ ((t.requests identifier ≡ none)
          × (record t { requests = put t.requests identifier message } ≡ t'))
unfolding save_request
save_request-eq rt t t' identifier message h =
    let (_, h1) =
      raise_if-then
        (is_some (t.requests identifier)
          && not (existing_matches rt (t.requests identifier) message))
        _ _ h in
    elim (Option-cases (t.requests identifier)) [
      | inl free ↦ inr (free, cc (rw free at h1))
      | inr (old, there) ↦ inl (cc (rw there at h1))
    ]

-- Every file of `t` is in `t'` with the same content.
pub record IsExtension (t t' : Transport) : Type 0 where
  pub request_stays : (k : String) (m : Payload) → t.requests k ≡ some m → t'.requests k ≡ some m
  pub acknowledgment_stays :
      (k : String) (a : Ack) → t.acknowledgments k ≡ some a → t'.acknowledgments k ≡ some a

save_request-IsExtension :
    (rt : Python) (t t' : Transport) (identifier : String) (message : Payload)
    → save_request rt t identifier message ≡ ok t'
    → IsExtension t t'
save_request-IsExtension rt t t' identifier message h =
    elim (save_request-eq rt t t' identifier message h) [
      | inl same ↦
          rw (← same) (record { request_stays = λ k m e. e; acknowledgment_stays = λ k a e. e })
      | inr (free, grown) ↦ rw (← grown) (record {
        request_stays = λ k m e. put-keeps t.requests identifier k m message free e;
        acknowledgment_stays = λ k a e. e;
      })
    ]

after_ingest-requests :
    (rt : Python) (t : Transport) (identifier : String) (r : Result Ack × Service)
    → (after_ingest rt t identifier r).1.requests ≡ t.requests
after_ingest-requests rt t identifier (err e, s) = refl
after_ingest-requests rt t identifier (ok ack, s) =
    elim (Option-cases (t.acknowledgments identifier)) [
      | inl free ↦
          rw free
            (write_ack-requests (record t { service = s }) identifier ack (ack_to_dict rt ack))
      | inr (old, kept) ↦ rw kept refl
    ]

after_ingest-saved :
    (rt : Python) (t : Transport) (identifier : String) (saved : Ack) (r : Result Ack × Service)
    → t.acknowledgments identifier ≡ some saved
    → ((after_ingest rt t identifier r).0 ≡ ok saved)
      ⊎ ((e : Exception) × ((after_ingest rt t identifier r).0 ≡ err e))
after_ingest-saved rt t identifier saved (err e, s) kept = inr (e, refl)
after_ingest-saved rt t identifier saved (ok ack, s) kept = inl (rw kept refl)

module _ (rt : Python) (is_safe : String → Bool) (now ack_now : DateTime) (t : Transport)
    (message : Payload) where
  -- Whatever is sent, `send` neither removes nor changes a request or an acknowledgment that is saved.
  pub send_offline-IsExtension : IsExtension t (send_offline rt is_safe now ack_now t message).1
  unfolding send_offline
  send_offline-IsExtension = elim (Result-cases (safe_message_id is_safe message)) [
    | inl (e, h) ↦
        rw (send_offline, h)
          (record { request_stays = λ k m e. e; acknowledgment_stays = λ k a e. e })
    | inr (identifier, h) ↦ elim (Result-cases (save_request rt t identifier message)) [
      | inl (e, g) ↦
          rw (send_offline, h, g)
            (record { request_stays = λ k m e. e; acknowledgment_stays = λ k a e. e })
      | inr (t', g) ↦
          let first = save_request-IsExtension rt t t' identifier message g in
          let reply = ingest rt t'.service now ack_now message in
          rw (send_offline, h, g)
            (record {
              request_stays = λ k m e.
                  rw (after_ingest-requests rt t' identifier reply) (first.request_stays k m e);
              acknowledgment_stays = λ k a e.
                  after_ingest-keeps rt t' identifier k a reply (first.acknowledgment_stays k a e);
            })
    ]
  ]

  -- When an acknowledgment is saved under the message's identifier, `send` returns that one or raises,
  -- whatever the service answers now.
  pub send_offline-saved :
      (identifier : String) (saved : Ack)
      → safe_message_id is_safe message ≡ ok identifier
      → t.acknowledgments identifier ≡ some saved
      → ((send_offline rt is_safe now ack_now t message).0 ≡ ok saved)
        ⊎ ((e : Exception) × ((send_offline rt is_safe now ack_now t message).0 ≡ err e))
  unfolding send_offline
  send_offline-saved identifier saved h kept =
      elim (Result-cases (save_request rt t identifier message)) [
        | inl (e, g) ↦ inr (e, rw (send_offline, h, g) refl)
        | inr (t', g) ↦
            let still =
              (save_request-IsExtension rt t t' identifier message g).acknowledgment_stays
                identifier saved kept in
            rw (send_offline, h, g)
              (after_ingest-saved rt t' identifier saved (ingest rt t'.service now ack_now message)
                still)
      ]
