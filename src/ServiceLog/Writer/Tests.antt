-- ===== src/ServiceLog/Writer/Tests.antt =====
-- Runs of the writer of the usage log (src/service_log.rs).
use mathlib.Core.List.{filter_map}
use bo_srv_rs.Common.{List, [], ◌∷◌, ◌++◌, none, some, ◌≡◌, refl, All, count}
use bo_srv_rs.Common.Text.Decimal.{Text, codes, parse_ℕ}
use bo_srv_rs.Common.Text.Fields.{has, has-Without}
use bo_srv_rs.Common.Text.Order.{text_eq}
use bo_srv_rs.Stats.Content.{unlines, IsLine, is_malformed}
use bo_srv_rs.Stats.Row.{parse_content, parse_row}
use bo_srv_rs.ServiceLog.Writer.Defs.{
  failed, dropped, Answers, Disk, new_writer, is_disabled_for, try_append, switched, switch_day,
  write_row, reset, report, append_on,
}
use bo_srv_rs.ServiceLog.Writer.Appends.{IsOpen, Appends, append_on-Appends}
use bo_srv_rs.ServiceLog.Writer.Runs.{
  Job, run, rows_of, Succeeds, FailsOnce, run-unlines, run_failures, parse_content-run,
}

abbrev fine : Answers
fine = record {
  flushing = none;
  opening = none;
  writing_row = none;
  bytes_of_row = 0;
  writing_line_feed = none;
}

-- The disk is full behind the second byte.
abbrev full : Answers
full = record fine { writing_row = some (codes "no space"); bytes_of_row = 2 }

abbrev monday : Text
monday = codes "2023-11-13"

abbrev tuesday : Text
tuesday = codes "2023-11-14"

abbrev nothing : Disk
nothing _ = []

new-IsOpen : IsOpen new_writer
new-IsOpen = record { same = refl }

append_on-Appends_example :
    let (w', (disk', outcome)) = append_on full monday (codes "abc") new_writer nothing in
    Appends monday (codes "abc") new_writer nothing w' disk' outcome × IsOpen w'
append_on-Appends_example =
    append_on-Appends full monday (codes "abc") new_writer nothing new-IsOpen

abbrev alternating : List Job
alternating =
    record { io = fine; day = monday; row = codes "abc" }
    ∷ record { io = fine; day = tuesday; row = codes "de" }
    ∷ record { io = fine; day = monday; row = codes "f" }
    ∷ []

fine-Succeeds : Succeeds fine
fine-Succeeds = record {
  flushing = refl;
  opening = refl;
  writing_row = refl;
  writing_line_feed = refl;
}

alternating_succeed : All (λ (j : Job). Succeeds j.io) alternating
alternating_succeed = (fine-Succeeds, (fine-Succeeds, (fine-Succeeds, tt)))

run-unlines_example :
    (run alternating new_writer nothing).1.0 monday
    ≡ nothing monday ++ unlines (rows_of monday alternating)
run-unlines_example =
    run-unlines alternating new_writer nothing monday new-IsOpen refl alternating_succeed

monday_file : (run alternating new_writer nothing).1.0 monday ≡ codes "abc\nf\n"
unfolding run append_on try_append switched switch_day write_row reset report is_disabled_for
    text_eq
monday_file = refl

abbrev failing : List Job
failing =
    record { io = full; day = monday; row = codes "abc" }
    ∷ record { io = full; day = monday; row = codes "de" }
    ∷ record { io = fine; day = monday; row = codes "f" }
    ∷ []

failing_outcomes : (run failing new_writer nothing).1.1 ≡ failed ∷ dropped ∷ dropped ∷ []
unfolding run append_on try_append switched switch_day write_row reset report is_disabled_for
    text_eq
failing_outcomes = refl

run_failures_example : FailsOnce (run failing new_writer nothing).1.1
run_failures_example =
    run_failures failing new_writer nothing monday new-IsOpen (λ h. cc) (refl, (refl, (refl, tt)))

monday_lines : All IsLine (rows_of monday alternating)
unfolding has text_eq
monday_lines = (
  record { without = has-Without b'\n' (codes "abc") refl; ends = refl },
  (record { without = has-Without b'\n' (codes "f") refl; ends = refl }, tt),
)

parse_content-run_example :
    let file = (run alternating new_writer nothing).1.0 monday in
    ((parse_content parse_ℕ file).rows
      ≡ filter_map (parse_row parse_ℕ) (rows_of monday alternating))
    × ((parse_content parse_ℕ file).malformed
        ≡ count (is_malformed parse_ℕ) (rows_of monday alternating))
parse_content-run_example =
    parse_content-run parse_ℕ alternating monday alternating_succeed monday_lines
