-- ===== src/Central/Transport.antt =====
-- `_message_id`, `_existing_json_matches` and `OfflineFileTransport` of
-- src/commguard/central/transport.py. The two directories are dictionaries by message identifier;
-- creating a file fails if there is one already, and reading one back gives what was written.
pub mod Saved
use comm_guard.Prelude.{
  String, Bool, true, false, not, ◌&&◌, Option, none, some, ◌==◌, is_some, if◌then◌else◌, non_empty,
  Dict, put, get_or, Exception, value_error, Result, ok, err, ◌>>=◌, ◌>>◌, raise_if,
}
use comm_guard.Central.Runtime.{DateTime}
use comm_guard.Central.Messages.{Payload, Python, utc}
use comm_guard.Central.Security.{canonical_bytes}
use comm_guard.Central.Server.{Ack, Service}
use comm_guard.Central.Server.Replies.{or_else}
use comm_guard.Central.Server.Ingest.{ingest}

pub record Transport : Type 0 where
  pub requests : Dict Payload
  pub acknowledgments : Dict Ack
  pub service : Service

-- `_message_id`, where `is_safe` is the match with `[A-Za-z0-9_-]+`.
unfoldable pub safe_message_id : (String → Bool) → Payload → Result String
safe_message_id is_safe message = do
  let value = get_or "" (or_else message.batch_id (or_else message.heartbeat_id none))
  raise_if (not (is_safe value)) (value_error "message ID is not safe for offline transport")
  ok value

-- `_existing_json_matches`
unfoldable pub existing_matches : Python → Option Payload → Payload → Bool
unfolding canonical_bytes
existing_matches rt none message = false
existing_matches rt (some existing) message =
    canonical_bytes rt existing true == canonical_bytes rt message true

-- The request file: refused on a conflict, else written unless it exists.
unfoldable pub save_request : Python → Transport → String → Payload → Result Transport
unfolding existing_matches
save_request rt t identifier message = do
  let existing = t.requests identifier
  raise_if (is_some existing && not (existing_matches rt existing message))
      (value_error "offline request message ID conflicts with saved content")
  if is_some existing then ok t else ok (record t { requests = put t.requests identifier message })

-- `IngestionAck.to_dict`, which checks the time; the dictionary has the same fields.
unfoldable pub ack_to_dict : Python → Ack → Result Ack
unfolding utc
ack_to_dict rt ack = do utc rt ack.server_time_utc "server_time_utc"; ok ack

-- `_exclusive_json` of the acknowledgment, where there is no file yet
abbrev write_ack : Transport → String → Ack → Result Ack → Result Ack × Transport
write_ack t identifier ack (err e) = (err e, t)
write_ack t identifier ack (ok saved) =
    (ok ack, record t { acknowledgments = put t.acknowledgments identifier saved })

-- The acknowledgment file: the saved acknowledgment wins over the new one.
abbrev answer_saved : Python → Transport → String → Ack → Option Ack → Result Ack × Transport
answer_saved rt t identifier ack none = write_ack t identifier ack (ack_to_dict rt ack)
answer_saved rt t identifier ack (some existing) = (ok existing, t)

abbrev after_ingest : Python → Transport → String → Result Ack × Service → Result Ack × Transport
after_ingest rt t identifier (err e, s) = (err e, record t { service = s })
after_ingest rt t identifier (ok ack, s) =
    answer_saved rt (record t { service = s }) identifier ack (t.acknowledgments identifier)

abbrev deliver :
    Python
    → DateTime
    → DateTime
    → Transport
    → Payload
    → String
    → Result Transport
    → Result Ack × Transport
deliver rt now ack_now t message identifier (err e) = (err e, t)
deliver rt now ack_now t message identifier (ok t') =
    after_ingest rt t' identifier (ingest rt t'.service now ack_now message)

-- `send`, at the clock readings of `ingest`.
unfoldable pub send_offline :
    Python → (String → Bool) → DateTime → DateTime → Transport → Payload → Result Ack × Transport
unfolding safe_message_id save_request ingest ack_to_dict
send_offline rt is_safe now ack_now t message = elim (safe_message_id is_safe message) [
  | err e ↦ (err e, t)
  | ok identifier ↦
      deliver rt now ack_now t message identifier (save_request rt t identifier message)
]
