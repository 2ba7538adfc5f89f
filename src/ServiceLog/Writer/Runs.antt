-- ===== src/ServiceLog/Writer/Runs.antt =====
-- A run of the consumer of `spawn` (src/service_log.rs): one append for each entry it receives.
use bo_srv_rs.Common.{
  ◌+◌, List, [], ◌∷◌, ◌++◌, Option, none, some, ◌≡◌, ◌≢◌, refl, sym, ap, ◌∙◌, arith, if◌then◌else◌,
  inl, inr, Bool-cases, All, count, append_assoc, append_nil,
}
use bo_srv_rs.Common.Text.Decimal.{Text}
use bo_srv_rs.Common.Text.Order.{text_eq, text_eq_iff}
use mathlib.Core.List.{filter_map}
use bo_srv_rs.Stats.Content.{unlines, IsLine, is_malformed, parse_content-unlines}
use bo_srv_rs.Stats.Row.{parse_row, parse_content}
use bo_srv_rs.ServiceLog.Writer.Defs.{
  ServicelogWriter, WriteOutcome, written, failed, dropped, Answers, Disk, is_disabled_for,
  switch_day, write_row, switched, try_append, reset, report, append_on, new_writer,
}
use bo_srv_rs.ServiceLog.Writer.Appends.{
  Appends, IsOpen, append_on-Appends, is_day_refl, is_dropped,
}

-- What one round of the loop appends.
pub record Job : Type 0 where
  pub io : Answers
  pub day : Text
  pub row : Text

-- The loop, with the outcomes in order.
unfoldable pub run :
    List Job → ServicelogWriter → Disk → ServicelogWriter × (Disk × List WriteOutcome)
unfolding append_on
run [] w disk = (w, (disk, []))
run (j ∷ js) w disk =
    let (w', (disk', outcome)) = append_on j.io j.day j.row w disk in
    let (w'', (disk'', outcomes)) = run js w' disk' in (w'', (disk'', outcome ∷ outcomes))

-- The rows of a day, in their order.
abbrev pub rows_of : Text → List Job → List Text
rows_of d [] = []
rows_of d (j ∷ js) = if text_eq d j.day then j.row ∷ rows_of d js else rows_of d js

-- The operating system refuses nothing.
pub record Succeeds (io : Answers) : Type 0 where
  pub flushing : io.flushing ≡ none
  pub opening : io.opening ≡ none
  pub writing_row : io.writing_row ≡ none
  pub writing_line_feed : io.writing_line_feed ≡ none

append_on-Succeeds :
    (io : Answers) (day row : Text) (w : ServicelogWriter) (disk : Disk)
    → Succeeds io
    → w.disabled_day ≡ none
    → ((append_on io day row w disk).1.1 ≡ written)
      × ((append_on io day row w disk).0.disabled_day ≡ none)
unfolding append_on try_append report switched switch_day write_row reset is_disabled_for
append_on-Succeeds io day row w disk s n =
    ground (arith, s.flushing, s.opening, s.writing_row, s.writing_line_feed, n)

-- When no call fails, every file grows by exactly the rows of its day, in the order in which
-- they were received and with a line feed behind each, even if the days of the entries alternate.
pub run-unlines :
    (js : List Job) (w : ServicelogWriter) (disk : Disk) (d : Text)
    → IsOpen w
    → w.disabled_day ≡ none
    → All (λ j. Succeeds j.io) js
    → (run js w disk).1.0 d ≡ disk d ++ unlines (rows_of d js)
unfolding run
run-unlines [] w disk d o n s = sym (append_nil (disk d))
run-unlines (j ∷ js) w disk d o n s =
    let (w', (disk', outcome)) = append_on j.io j.day j.row w disk in
    let (a, o') = append_on-Appends j.io j.day j.row w disk o in
    let (is_written, n') = append_on-Succeeds j.io j.day j.row w disk s.0 n in
    let reported_written : disk' j.day ≡ disk j.day ++ (j.row ++ b'\n' ∷ []) =
      rw is_written at a.report in
    run-unlines js w' disk' d o' n' s.1 ∙ elim (Bool-cases (text_eq d j.day)) [
      | inl here ↦
          let same = (text_eq_iff d j.day).0 here in
          rw (here, same)
            (rw (reported_written) (
              append_assoc (disk j.day) (j.row ++ b'\n' ∷ []) (unlines (rows_of j.day js))
              ∙ ap (λ t. disk j.day ++ t)
                  (append_assoc j.row (b'\n' ∷ []) (unlines (rows_of j.day js))
                    ∙ ap (λ t. j.row ++ (b'\n' ∷ unlines (rows_of t js))) (sym same))))
      | inr other ↦ rw (other, a.others d) (rw other refl)
    ]

-- The outcomes of a day: rows that are written, and behind the first failure only drops.
abbrev pub FailsOnce : List WriteOutcome → Type 0
FailsOnce [] = Unit
FailsOnce (written ∷ os) = FailsOnce os
FailsOnce (failed ∷ os) = All (λ o. o ≡ dropped) os
FailsOnce (dropped ∷ os) = ⊥

append_on-written :
    (io : Answers) (day row : Text) (w : ServicelogWriter) (disk : Disk)
    → (append_on io day row w disk).1.1 ≡ written
    → (append_on io day row w disk).0.disabled_day ≡ none
unfolding append_on try_append report switched switch_day write_row reset is_disabled_for
append_on-written io day row w disk h = ground (arith, h)

append_on-disabled :
    (io : Answers) (day row : Text) (w : ServicelogWriter) (disk : Disk)
    → w.disabled_day ≡ some day
    → ((append_on io day row w disk).1.1 ≡ dropped)
      × ((append_on io day row w disk).0.disabled_day ≡ some day)
unfolding append_on reset is_disabled_for
append_on-disabled io day row w disk h = ground (arith, h, is_day_refl day)

-- A writer that is disabled for the day of all the entries drops them.
run_disabled :
    (js : List Job) (w : ServicelogWriter) (disk : Disk) (day : Text)
    → w.disabled_day ≡ some day
    → All (λ j. j.day ≡ day) js
    → All (λ o. o ≡ dropped) (run js w disk).1.1
unfolding run
run_disabled [] w disk day h s = tt
run_disabled (j ∷ js) w disk day h s =
    let (w', (disk', outcome)) = append_on j.io j.day j.row w disk in
    let (o, n) = append_on-disabled j.io j.day j.row w disk (h ∙ ap some (sym s.0)) in
    (o, run_disabled js w' disk' day (n ∙ ap some s.0) s.1)

FailsOnce-step :
    (day row : Text) (w : ServicelogWriter) (disk : Disk) (w' : ServicelogWriter) (disk' : Disk)
    (outcome : WriteOutcome) (os : List WriteOutcome)
    → Appends day row w disk w' disk' outcome
    → w.disabled_day ≢ some day
    → (outcome ≡ written → FailsOnce os)
    → (w'.disabled_day ≡ some day → All (λ o. o ≡ dropped) os)
    → FailsOnce (outcome ∷ os)
FailsOnce-step day row w disk w' disk' written os a ne more none_left = more refl
FailsOnce-step day row w disk w' disk' failed os a ne more none_left = none_left a.report.0
FailsOnce-step day row w disk w' disk' dropped os a ne more none_left = ne a.report.1

-- In a run whose entries are all of one day, from a writer whose open file is the one of its
-- current day and which is not disabled for the day of the run, whatever the operating system
-- answers: each entry is reported as written up to the first failure, that entry alone is
-- reported as failed, and every entry behind it as dropped.
pub run_failures :
    (js : List Job) (w : ServicelogWriter) (disk : Disk) (day : Text)
    → IsOpen w
    → w.disabled_day ≢ some day
    → All (λ j. j.day ≡ day) js
    → FailsOnce (run js w disk).1.1
unfolding run
run_failures [] w disk day o ne s = tt
run_failures (j ∷ js) w disk day o ne s =
    let (w', (disk', outcome)) = append_on j.io j.day j.row w disk in
    let (a, o') = append_on-Appends j.io j.day j.row w disk o in
    FailsOnce-step j.day j.row w disk w' disk' outcome (run js w' disk').1.1 a
      (λ h. ne (h ∙ ap some s.0))
      (λ e.
        let free = append_on-written j.io j.day j.row w disk e in
        run_failures js w' disk' day o' (λ h. cc) s.1)
      (λ h. run_disabled js w' disk' day (h ∙ ap some s.0) s.1)

-- The counter of dropped rows counts the drops, and nothing else.
pub run_dropped :
    (js : List Job) (w : ServicelogWriter) (disk : Disk)
    → IsOpen w
    → (run js w disk).0.dropped_rows ≡ w.dropped_rows + count is_dropped (run js w disk).1.1
unfolding run
run_dropped [] w disk o = omega arith
run_dropped (j ∷ js) w disk o =
    let (w', (disk', outcome)) = append_on j.io j.day j.row w disk in
    let (a, o') = append_on-Appends j.io j.day j.row w disk o in
    omega (arith, a.counted, run_dropped js w' disk' o')

-- The log of a run of the service, read back by the statistics: when no call fails, from a new
-- writer and an empty disk, the file of a day has the rows of that day which parse, in the order
-- of their entries, and the others that are not blank are counted as malformed, for rows that
-- hold no line feed and end in no carriage return.
pub parse_content-run :
    {F : Type 0} (parse_f64 : Text → Option F) (js : List Job) (d : Text)
    → All (λ j. Succeeds j.io) js
    → All IsLine (rows_of d js)
    → let file = (run js new_writer (λ _. [])).1.0 d in
      ((parse_content parse_f64 file).rows ≡ filter_map (parse_row parse_f64) (rows_of d js))
      × ((parse_content parse_f64 file).malformed ≡ count (is_malformed parse_f64) (rows_of d js))
parse_content-run parse_f64 js d s l =
    rw (run-unlines js new_writer (λ _. []) d (record { same = refl }) refl s)
      (parse_content-unlines parse_f64 (rows_of d js) l)
