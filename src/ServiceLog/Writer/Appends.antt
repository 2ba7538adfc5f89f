-- ===== src/ServiceLog/Writer/Appends.antt =====
-- One append of `ServicelogWriter` (src/service_log.rs): which file it changes, and how.
use bo_srv_rs.Common.{
  ◌+◌, Bool, true, false, [], ◌∷◌, ◌++◌, Option, none, some, ◌≡◌, refl, sym, ap, ◌∙◌, arith,
  if◌then◌else◌, inl, inr, Bool-cases, bit,
}
use bo_srv_rs.Common.Result.{Result, ok, err}
use bo_srv_rs.Common.Text.Decimal.{Text}
use bo_srv_rs.Common.Text.Order.{text_eq, text_eq_iff}
use bo_srv_rs.ServiceLog.Writer.Defs.{
  ServicelogWriter, WriteOutcome, written, failed, dropped, Answers, Disk, is_day, is_disabled_for,
  is_some, switch_day, write_row, switched, try_append, reset, report, append_on,
}

-- The open file is the file of the current day.
pub record IsOpen (w : ServicelogWriter) : Type 0 where
  pub same : w.file ≡ w.current_day

abbrev pub is_dropped : WriteOutcome → Bool
is_dropped dropped = true
is_dropped written = false
is_dropped failed = false

-- What an outcome says of the file of the day and of the writer.
abbrev pub Reports :
    WriteOutcome → Text → Text → ServicelogWriter → Disk → ServicelogWriter → Disk → Type 0
Reports written day row w disk w' disk' = disk' day ≡ disk day ++ (row ++ b'\n' ∷ [])
Reports dropped day row w disk w' disk' = (disk' day ≡ disk day) × (w.disabled_day ≡ some day)
Reports failed day row w disk w' disk' = (w'.disabled_day ≡ some day) × (is_some w'.failure ≡ true)

-- What one append does to the writer and the disk.
pub record Appends (day row : Text) (w : ServicelogWriter) (disk : Disk) (w' : ServicelogWriter)
    (disk' : Disk) (outcome : WriteOutcome) : Type 0 where
  pub others : (d : Text) → disk' d ≡ (if text_eq d day then disk' day else disk d)
  pub report : Reports outcome day row w disk w' disk'
  pub counted : w'.dropped_rows ≡ w.dropped_rows + bit (is_dropped outcome)

others_if :
    (day : Text) (disk disk' : Disk)
    → ((d : Text) → text_eq d day ≡ false → disk' d ≡ disk d)
    → (d : Text) → disk' d ≡ (if text_eq d day then disk' day else disk d)
others_if day disk disk' h d = elim (Bool-cases (text_eq d day)) [
  | inl here ↦ rw here (ap disk' ((text_eq_iff d day).0 here))
  | inr other ↦ rw other (h d other)
]

pub is_day-eq : (o : Option Text) (day : Text) → is_day o day ≡ true → o ≡ some day
is_day-eq none day h = cc
is_day-eq (some d) day h = ap some ((text_eq_iff d day).0 h)

pub is_day_refl : (day : Text) → is_day (some day) day ≡ true
is_day_refl day = (text_eq_iff day day).1 refl

switched-IsOpen :
    (io : Answers) (day : Text) (w w' : ServicelogWriter)
    → IsOpen w
    → switched io day w ≡ ok w'
    → (w'.file ≡ some day) × (w'.current_day ≡ some day) × (w'.dropped_rows ≡ w.dropped_rows)
unfolding switched switch_day
switched-IsOpen io day w w' h e = ground (arith, is_day-eq w.current_day day, h.same, e)

-- What the writing does to the disk, when the file of the day is open.
record Writes (day row : Text) (disk disk' : Disk) (result : Result Unit Text) : Type 0 where
  others : (d : Text) → text_eq d day ≡ false → disk' d ≡ disk d
  all : result ≡ ok tt → disk' day ≡ disk day ++ (row ++ b'\n' ∷ [])

write_row-Writes :
    (io : Answers) (day row : Text) (w : ServicelogWriter) (disk : Disk)
    → w.file ≡ some day
    → Writes day row disk (write_row io row w disk).0 (write_row io row w disk).1
unfolding write_row
write_row-Writes io day row w disk h = record {
  others = λ d ne. ground (arith, h, ne);
  all = λ e. ground (arith, h, e, is_day_refl day);
}

try_append-cases :
    (io : Answers) (day row : Text) (w : ServicelogWriter) (disk : Disk)
    → IsOpen w
    → let (w', (disk', result)) = try_append io day row w disk in
      Writes day row disk disk' result × IsOpen w' × (w'.dropped_rows ≡ w.dropped_rows)
unfolding try_append
try_append-cases io day row w disk h = cases (switched io day w) refl
  where
    cases :
        (r : Result ServicelogWriter Text)
        → switched io day w ≡ r
        → let (w', (disk', result)) =
            elim r as (λ _. ServicelogWriter × (Disk × Result Unit Text)) [
              | err error ↦ (w, (disk, err error))
              | ok w' ↦ (w', write_row io row w' disk)
            ] in
          Writes day row disk disk' result × IsOpen w' × (w'.dropped_rows ≡ w.dropped_rows)
    cases (err x) e = (record { others = λ d ne. refl; all = λ e. cc }, h, refl)
    cases (ok w') e =
        let (f, c, n) = switched-IsOpen io day w w' h e in
        (write_row-Writes io day row w' disk f, record { same = f ∙ sym c }, n)

reset-IsOpen : (day : Text) (w : ServicelogWriter) → IsOpen w → IsOpen (reset day w)
unfolding reset
reset-IsOpen day w h = ground (arith, h.same)

reset-dropped : (day : Text) (w : ServicelogWriter) → (reset day w).dropped_rows ≡ w.dropped_rows
unfolding reset
reset-dropped day w = ground arith

-- Behind the reset only a failure of the same day disables the writer.
reset-disabled :
    (day : Text) (w : ServicelogWriter)
    → is_disabled_for (reset day w) day ≡ true
    → w.disabled_day ≡ some day
unfolding reset is_disabled_for
reset-disabled day w h = ground (arith, h, is_day-eq w.disabled_day day)

report-Appends :
    (day row : Text) (w : ServicelogWriter) (disk : Disk)
    (t : ServicelogWriter × (Disk × Result Unit Text))
    → Writes day row disk (t.1.0) (t.1.1)
      × IsOpen t.0
      × (t.0.dropped_rows ≡ (reset day w).dropped_rows)
    → let (w', (disk', outcome)) = report day t in
      Appends day row w disk w' disk' outcome × IsOpen w'
unfolding report
report-Appends day row w disk (w', (disk', ok tt)) (p, o, n) = (
  record {
    others = others_if day disk disk' p.others;
    report = p.all refl;
    counted = omega (arith, n, reset-dropped day w);
  },
  o,
)
report-Appends day row w disk (w', (disk', err x)) (p, o, n) = (
  record {
    others = others_if day disk disk' p.others;
    report = (refl, refl);
    counted = omega (arith, n, reset-dropped day w);
  },
  record { same = o.same },
)

-- An append changes no file but the one of the day. If it reports that the row is written, the
-- row and a line feed are at the end of that file, behind all that was there; if it reports a
-- drop, no file changes, the writer was disabled for that very day, and the row is counted; if
-- it reports a failure, the writer is disabled for the day and keeps an error message.
pub append_on-Appends :
    (io : Answers) (day row : Text) (w : ServicelogWriter) (disk : Disk)
    → IsOpen w
    → let (w', (disk', outcome)) = append_on io day row w disk in
      Appends day row w disk w' disk' outcome × IsOpen w'
unfolding append_on
append_on-Appends io day row w disk h = elim (Bool-cases (is_disabled_for (reset day w) day)) [
  | inl off ↦ rw off (
    record {
      others = others_if day disk disk (λ d ne. refl);
      report = (refl, reset-disabled day w off);
      counted = ap (λ n. n + 1) (reset-dropped day w);
    },
    record { same = (reset-IsOpen day w h).same },
  )
  | inr on ↦ rw on (
      report-Appends day row w disk (try_append io day row (reset day w) disk)
        (try_append-cases io day row (reset day w) disk (reset-IsOpen day w h)))
]
