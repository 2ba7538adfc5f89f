-- ===== src/ServiceLog/Queue/Tests.antt =====
-- `UsageLogSender` (src/service_log.rs) before a queue of two places that nobody reads.
use bo_srv_rs.Common.{
  ℕ, List, [], ◌∷◌, ◌++◌, ◌≡◌, refl, arith, inl, inr, ltb, length, if◌then◌else◌, Bool-cases,
}
use bo_srv_rs.ServiceLog.Queue.{Sent, accepted, full, Channel, UsageLogSender, record_entry}
use bo_srv_rs.ServiceLog.Queue.Accounting.{Accounts, record_entries, record_entries-Accounts}

abbrev send : ℕ → List ℕ → List ℕ × Sent
send a q = if ltb (length q) 2 then (q ++ a ∷ [], accepted) else (q, full)

abbrev two_places : Channel (List ℕ) ℕ
two_places = record {
  waiting = λ q. q;
  try_send = send;
  send_accepted = λ a q e. elim (Bool-cases (ltb (length q) 2)) [
    | inl room ↦ ground (arith, room)
    | inr none_ ↦ ground (arith, none_, e)
  ];
  send_refused = λ a q e. elim (Bool-cases (ltb (length q) 2)) [
    | inl room ↦ ground (arith, room, e)
    | inr none_ ↦ ground (arith, none_)
  ];
}

abbrev idle : UsageLogSender (List ℕ)
idle = record { sender = []; dropped = 0; warnings = 0 }

two_are_dropped :
    record_entries two_places (5 ∷ 6 ∷ 7 ∷ 8 ∷ []) idle
    ≡ record { sender = 5 ∷ 6 ∷ []; dropped = 2; warnings = 1 }
unfolding record_entry
two_are_dropped = refl

record_entries-Accounts_example :
    Accounts two_places
      (5 ∷ 6 ∷ 7 ∷ 8 ∷ [])
      idle
      (record_entries two_places (5 ∷ 6 ∷ 7 ∷ 8 ∷ []) idle)
record_entries-Accounts_example =
    record_entries-Accounts two_places (5 ∷ 6 ∷ 7 ∷ 8 ∷ []) idle (omega arith)
