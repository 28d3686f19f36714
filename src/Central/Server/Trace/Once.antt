-- ===== src/Central/Server/Trace/Once.antt =====
-- No message is accepted twice.
use comm_guard.Prelude.{
  String, ◌≡◌, refl, true, false, List, [], ◌∷◌, ◌++◌, map, arith, eq_iff, contains,
}
use comm_guard.Central.Messages.{Python}
use comm_guard.Central.Server.{Service}
use comm_guard.Central.Server.Replies.{Message, id_of}
use comm_guard.Central.Server.Ingest.{store}
use comm_guard.Central.Server.Ingest.Stored.{seen-store}
use comm_guard.Central.Server.Trace.{Event, after, log, step_cases}

-- The identifiers are pairwise distinct.
abbrev pub IsDistinct : List String → Type 0
IsDistinct [] = Unit
IsDistinct (x ∷ xs) = (contains xs x ≡ false) × IsDistinct xs

module _ (rt : Python) where
  abbrev pub ids : List Message → List String
  ids = map id_of

  -- A message that was seen is not accepted again.
  pub log_unseen :
      (s : Service) (es : List Event) (k : String)
      → s.seen_message_ids k ≡ true
      → contains (ids (log rt s es)) k ≡ false
  unfolding log contains
  log_unseen s [] k h = refl
  log_unseen s (e ∷ es) k h =
      step_cases rt
        (λ t ms.
          ((t.seen_message_ids k ≡ true) → contains (ids (log rt t es)) k ≡ false)
          → contains (ids (ms ++ log rt t es)) k ≡ false)
        s e
        (λ m good ih. ground (
          arith,
          eq_iff k (id_of m),
          seen-store rt s e.now e.payload m good.identified k,
          good.in_order.unseen,
          good.identified.same_id,
          ih (ground (arith, seen-store rt s e.now e.payload m good.identified k)),
        ))
        (λ ih. ih h) (log_unseen (after rt s e) es k)

  -- The identifiers of the accepted messages are distinct, whatever is sent and sent again.
  pub log-IsDistinct : (s : Service) (es : List Event) → IsDistinct (ids (log rt s es))
  unfolding log
  log-IsDistinct s [] = tt
  log-IsDistinct s (e ∷ es) =
      step_cases rt (λ t ms. IsDistinct (ids (log rt t es)) → IsDistinct (ids (ms ++ log rt t es)))
        s e
        (λ m good ih. (
          log_unseen (store rt s e.now e.payload m) es (id_of m) (
              ground (
                arith,
                eq_iff (id_of m) (id_of m),
                seen-store rt s e.now e.payload m good.identified (id_of m),
              )),
          ih,
        ))
        (λ ih. ih) (log-IsDistinct (after rt s e) es)
