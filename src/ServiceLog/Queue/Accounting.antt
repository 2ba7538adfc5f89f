-- ===== src/ServiceLog/Queue/Accounting.antt =====
-- The accounting of `UsageLogSender` (src/service_log.rs): what becomes of the entries that are
-- handed to it.
use bo_srv_rs.Common.{
  ℕ, suc, ◌+◌, ◌%◌, ◌^◌, ◌≤◌, ◌<◌, List, [], ◌∷◌, ◌++◌, ◌≡◌, ◌⊎◌, inl, inr, refl, sym, ◌∙◌, ap,
  subst, arith, ◌==◌, length, if◌then◌else◌, append_assoc, append_nil,
}
use bo_srv_rs.ServiceLog.Queue.{
  Sent, accepted, full, closed, Channel, UsageLogSender, after_send, record_entry,
}

Sent-cases : (r : Sent) → (r ≡ accepted) ⊎ ((r ≡ full) ⊎ (r ≡ closed))
Sent-cases accepted = inl refl
Sent-cases full = inr (inl refl)
Sent-cases closed = inr (inr refl)

-- How many entries met a full queue.
abbrev pub full_count : List Sent → ℕ
full_count [] = 0
full_count (accepted ∷ rs) = full_count rs
full_count (full ∷ rs) = suc (full_count rs)
full_count (closed ∷ rs) = full_count rs

-- The entries that the queue accepted.
abbrev pub accepted_of : {A : Type 0} → List A → List Sent → List A
accepted_of [] rs = []
accepted_of (a ∷ as') [] = []
accepted_of (a ∷ as') (accepted ∷ rs) = a ∷ accepted_of as' rs
accepted_of (a ∷ as') (full ∷ rs) = accepted_of as' rs
accepted_of (a ∷ as') (closed ∷ rs) = accepted_of as' rs

-- One warning if the counter was zero and `n` more entries were dropped, and `n` is not zero.
abbrev pub first_drop : (before n : ℕ) → ℕ
first_drop before n = if before == 0 then (if n == 0 then 0 else 1) else 0

module _ {Q A : Type 0} (channel : Channel Q A) where
  -- One entry behind the other.
  abbrev pub record_entries : List A → UsageLogSender Q → UsageLogSender Q
  record_entries [] u = u
  record_entries (a ∷ as') u = record_entries as' (record_entry channel a u)

  -- What the channel itself answers to one `try_send` for each entry, and what it becomes.
  abbrev pub outcomes : List A → Q → List Sent
  outcomes [] q = []
  outcomes (a ∷ as') q = (channel.try_send a q).1 ∷ outcomes as' (channel.try_send a q).0

  abbrev pub send_all : List A → Q → Q
  send_all [] q = q
  send_all (a ∷ as') q = send_all as' (channel.try_send a q).0

  waiting-send_all :
      (entries : List A) (q : Q)
      → channel.waiting (send_all entries q)
        ≡ channel.waiting q ++ accepted_of entries (outcomes entries q)
  waiting-send_all [] q = sym (append_nil (channel.waiting q))
  waiting-send_all (a ∷ as') q =
      let next = (channel.try_send a q).0 in
      let rest = accepted_of as' (outcomes as' next) in
      elim (Sent-cases (channel.try_send a q).1) [
        | inl e ↦ rw e (
            waiting-send_all as' next
            ∙ ap (λ x. x ++ rest) (channel.send_accepted a q e)
            ∙ append_assoc (channel.waiting q) (a ∷ []) rest)
        | inr (inl e) ↦
            rw e
              (waiting-send_all as' next ∙ ap (λ x. x ++ rest) (channel.send_refused a q (λ f. cc)))
        | inr (inr e) ↦
            rw e
              (waiting-send_all as' next ∙ ap (λ x. x ++ rest) (channel.send_refused a q (λ f. cc)))
      ]

  -- One `try_send` was made for each entry; the accepted ones wait behind the ones before, in
  -- their order; the counter has grown by the entries that met a full queue.
  pub record Accounts (entries : List A) (u u' : UsageLogSender Q) : Type 0 where
    pub sent : u'.sender ≡ send_all entries u.sender
    pub waiting :
        channel.waiting u'.sender
        ≡ channel.waiting u.sender ++ accepted_of entries (outcomes entries u.sender)
    pub counted : u'.dropped ≡ u.dropped + full_count (outcomes entries u.sender)
    pub warned :
        u'.warnings ≡ u.warnings + first_drop u.dropped (full_count (outcomes entries u.sender))

  record_entry-after :
      (a : A) (u : UsageLogSender Q) (r : Sent)
      → (channel.try_send a u.sender).1 ≡ r
      → record_entry channel a u ≡ after_send channel u ((channel.try_send a u.sender).0, r)
  unfolding record_entry
  record_entry-after a u r e = rw (← e) refl

  -- The counters, and the channel.
  abbrev Counts : List A → List Sent → UsageLogSender Q → UsageLogSender Q → Type 0
  Counts entries rs u u' =
      (u'.sender ≡ send_all entries u.sender)
      × ((u'.dropped ≡ u.dropped + full_count rs)
          × (u'.warnings ≡ u.warnings + first_drop u.dropped (full_count rs)))

  Counts-step :
      (a : A) (as' : List A) (u : UsageLogSender Q) (r : Sent) {u' : UsageLogSender Q}
      → u.dropped + 1 < 2 ^ 64
      → let q = (channel.try_send a u.sender).0 in
        let v = after_send channel u (q, r) in
        Counts as' (outcomes as' q) v u' → Counts (a ∷ as') (r ∷ outcomes as' q) u u'
  unfolding after_send
  Counts-step a as' u accepted h c = c
  Counts-step a as' u full h c =
      let small : (u.dropped + 1) % 2 ^ 64 ≡ u.dropped + 1 = omega (arith, h) in
      (c.0, (omega (arith, c.1.0, small), ground (arith, c.1.1, small)))
  Counts-step a as' u closed h c = c

  after_send-dropped :
      (u : UsageLogSender Q) (q : Q) (r : Sent)
      → u.dropped + 1 < 2 ^ 64
      → (after_send channel u (q, r)).dropped ≤ u.dropped + 1
  unfolding after_send
  after_send-dropped u q accepted h = omega arith
  after_send-dropped u q full h = omega (arith, h)
  after_send-dropped u q closed h = omega arith

  after_send-sender :
      (u : UsageLogSender Q) (q : Q) (r : Sent) → (after_send channel u (q, r)).sender ≡ q
  unfolding after_send
  after_send-sender u q accepted = refl
  after_send-sender u q full = refl
  after_send-sender u q closed = refl

  record_entries-Counts :
      (entries : List A) (u : UsageLogSender Q)
      → u.dropped + length entries < 2 ^ 64
      → Counts entries (outcomes entries u.sender) u (record_entries entries u)
  record_entries-Counts [] u h = (refl, (omega arith, ground arith))
  record_entries-Counts (a ∷ as') u h =
      let (q, r) = channel.try_send a u.sender in
      let v = after_send channel u (q, r) in
      let first = record_entry-after a u r refl in
      let rest =
        record_entries-Counts as' v
          (omega (arith, h, after_send-dropped u q r (omega (arith, h)))) in
      subst (λ w. Counts (a ∷ as') (r ∷ outcomes as' q) u (record_entries as' w)) (sym first)
        (Counts-step a as' u r (omega (arith, h)) (
          subst (λ p. Counts as' (outcomes as' p) v (record_entries as' v))
            (after_send-sender u q r) rest))

  -- As long as the counter of dropped entries does not wrap: each entry is offered to the queue
  -- once, in order; the accepted ones wait behind the ones before, in their order; the counter
  -- grows by exactly the number of entries that met a full queue, those that met a closed queue
  -- are not counted; and a warning is logged exactly once if the counter leaves zero, and
  -- otherwise not at all.
  pub record_entries-Accounts :
      (entries : List A) (u : UsageLogSender Q)
      → u.dropped + length entries < 2 ^ 64
      → Accounts entries u (record_entries entries u)
  record_entries-Accounts entries u h =
      let (sent, (counted, warned)) = record_entries-Counts entries u h in
      record {
        sent = sent;
        waiting = ap channel.waiting sent ∙ waiting-send_all entries u.sender;
        counted = counted;
        warned = warned;
      }
