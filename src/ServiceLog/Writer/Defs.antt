-- ===== src/ServiceLog/Writer/Defs.antt =====
-- The operations of `ServicelogWriter` (src/service_log.rs).
use bo_srv_rs.Common.{
  ℕ, ◌+◌, Bool, true, false, not, ◌&&◌, [], ◌∷◌, ◌++◌, Option, none, some, take, if◌then◌else◌,
}
use bo_srv_rs.Common.Int.{ℤ, div_euclid}
use bo_srv_rs.Common.Result.{Result, ok, err}
use bo_srv_rs.Common.Text.Decimal.{Text}
use bo_srv_rs.Common.Text.Order.{text_eq}
use bo_srv_rs.ServiceLog.Entry.{ServiceLogEntry}

pub record ServicelogWriter : Type 0 where
  pub current_day : Option Text
  pub file : Option Text
  pub disabled_day : Option Text
  pub failure : Option Text
  pub dropped_rows : ℕ

pub data WriteOutcome : Type 0 where
  written : WriteOutcome
  failed : WriteOutcome
  dropped : WriteOutcome

-- The answers to the calls of one `try_append`, with an error each, if any; a write that fails
-- may have written some bytes, and one that succeeds writes all.
pub record Answers : Type 0 where
  pub flushing : Option Text
  pub opening : Option Text
  pub writing_row : Option Text
  pub bytes_of_row : ℕ
  pub writing_line_feed : Option Text

-- The contents of the files by day; a file that is not there yet is empty.
abbrev pub Disk : Type 0
Disk = Text → Text

abbrev pub add : Text → Text → Disk → Disk
add day t disk d = if text_eq d day then disk d ++ t else disk d

abbrev pub new_writer : ServicelogWriter
new_writer = record {
  current_day = none;
  file = none;
  disabled_day = none;
  failure = none;
  dropped_rows = 0;
}

abbrev pub is_day : Option Text → Text → Bool
is_day none day = false
is_day (some d) day = text_eq d day

unfoldable pub is_disabled_for : ServicelogWriter → Text → Bool
is_disabled_for w day = is_day w.disabled_day day

abbrev pub is_some {ℓ} : {A : Type ℓ} → Option A → Bool
is_some none = false
is_some (some _) = true

-- The switch to the file of another day: the flush of the old file, and the opening.
unfoldable pub switch_day : Answers → Text → ServicelogWriter → Result ServicelogWriter Text
switch_day io day w =
    let flushed : Option Text = if is_some w.file then io.flushing else none in
    elim flushed [
      | some error ↦ err error
      | none ↦ elim io.opening [
        | some error ↦ err error
        | none ↦ ok (record w { file = some day; current_day = some day })
      ]
    ]

-- The two `write_all` calls, if there is a file.
unfoldable pub write_row : Answers → Text → ServicelogWriter → Disk → Disk × Result Unit Text
write_row io row w disk = elim w.file [
  | none ↦ (disk, ok tt)
  | some handle ↦ elim io.writing_row [
    | some error ↦ (add handle (take io.bytes_of_row row) disk, err error)
    | none ↦ elim io.writing_line_feed [
      | some error ↦ (add handle row disk, err error)
      | none ↦ (add handle (row ++ b'\n' ∷ []) disk, ok tt)
    ]
  ]
]

unfoldable pub switched : Answers → Text → ServicelogWriter → Result ServicelogWriter Text
unfolding switch_day
switched io day w = if not (is_day w.current_day day) then switch_day io day w else ok w

unfoldable pub try_append :
    Answers → Text → Text → ServicelogWriter → Disk → ServicelogWriter × (Disk × Result Unit Text)
unfolding switched write_row
try_append io day row w disk = elim (switched io day w) [
  | err error ↦ (w, (disk, err error))
  | ok w' ↦ (w', write_row io row w' disk)
]

-- A failure of another day is forgotten.
unfoldable pub reset : Text → ServicelogWriter → ServicelogWriter
reset day w =
    if is_some w.disabled_day && not (is_day w.disabled_day day)
    then record w { disabled_day = none; failure = none }
    else w

-- The outcome of a `try_append`; a failure disables the writer for the day.
unfoldable pub report :
    Text → ServicelogWriter × (Disk × Result Unit Text) → ServicelogWriter × (Disk × WriteOutcome)
report day (w, (disk, ok _)) = (w, (disk, written))
report day (w, (disk, err error)) =
    (record w { failure = some error; disabled_day = some day }, (disk, failed))

-- `append`, for an entry of the day.
unfoldable pub append_on :
    Answers → Text → Text → ServicelogWriter → Disk → ServicelogWriter × (Disk × WriteOutcome)
unfolding reset is_disabled_for try_append report
append_on io day row w0 disk =
    let w = reset day w0 in
    if is_disabled_for w day
    then (record w { dropped_rows = w.dropped_rows + 1 }, (disk, dropped))
    else report day (try_append io day row w disk)

-- `ymd` is the rendering `%Y-%m-%d` of a number of seconds since the epoch by `chrono`.
unfoldable pub entry_day : (ℤ → Text) → ℤ → Text
entry_day ymd now_us = ymd (div_euclid now_us 1000000)

unfoldable pub append :
    {F : Type 0}
    → (ℤ → Text)
    → Answers
    → ServiceLogEntry F
    → Text
    → ServicelogWriter
    → Disk
    → ServicelogWriter × (Disk × WriteOutcome)
unfolding append_on entry_day
append ymd io entry row w disk = append_on io (entry_day ymd entry.now_us) row w disk
