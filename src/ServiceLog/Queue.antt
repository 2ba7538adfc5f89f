-- ===== src/ServiceLog/Queue.antt =====
-- `UsageLogSender` (src/service_log.rs): the sender's end of the bounded queue between the service
-- and the consumer of the usage log. The queue of tokio is an interface.
pub mod Accounting
mod Tests
use bo_srv_rs.Common.{ℕ, ◌+◌, ◌%◌, ◌^◌, List, [], ◌∷◌, ◌++◌, ◌≡◌, ◌≢◌, ◌==◌, if◌then◌else◌}

-- The results of `try_send`.
pub data Sent : Type 0 where
  accepted : Sent
  full : Sent
  closed : Sent

-- `tokio::sync::mpsc`, with the messages that wait in the queue, in their order: `try_send` puts
-- a message behind them, or leaves them alone.
pub record Channel (Q A : Type 0) : Type 0 where
  pub waiting : Q → List A
  pub try_send : A → Q → Q × Sent
  pub send_accepted :
      (a : A) (q : Q) → (try_send a q).1 ≡ accepted → waiting (try_send a q).0 ≡ waiting q ++ a ∷ []
  pub send_refused :
      (a : A) (q : Q) → (try_send a q).1 ≢ accepted → waiting (try_send a q).0 ≡ waiting q

-- The sender, and how often the warning of a full queue was logged.
pub record UsageLogSender (Q : Type 0) : Type 0 where
  pub sender : Q
  pub dropped : ℕ
  pub warnings : ℕ

-- The test `dropped == 1` on the counter behind the addition.
abbrev warning : ℕ → ℕ
warning dropped = if dropped + 1 == 1 then 1 else 0

module _ {Q A : Type 0} (channel : Channel Q A) where
  unfoldable pub after_send : UsageLogSender Q → Q × Sent → UsageLogSender Q
  after_send u (q, accepted) = record u { sender = q }
  after_send u (q, full) = record {
    sender = q;
    dropped = (u.dropped + 1) % 2 ^ 64;
    warnings = u.warnings + warning u.dropped;
  }
  after_send u (q, closed) = record u { sender = q }

  -- `UsageLogSender::record`.
  unfoldable pub record_entry : A → UsageLogSender Q → UsageLogSender Q
  unfolding after_send
  record_entry a u = after_send u (channel.try_send a u.sender)
