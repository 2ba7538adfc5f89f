-- ===== src/Service/Sample.antt =====
-- A service with sample values for the runs of its handlers.
use mathlib.Core.List.{List-discrete}
use native.Mathlib.Decide.{ℕ_discrete}
use bo_srv_rs.Common.{
  ℕ, false, List, [], ◌∷◌, ◌++◌, Option, none, some, ◌≡◌, ◌≢◌, refl, arith, length, ltb,
  if◌then◌else◌, Bool-cases, inl, inr,
}
use bo_srv_rs.Common.Int.{pos, negsuc}
use bo_srv_rs.Common.Result.{Result, ok, err}
use bo_srv_rs.Common.Text.Decimal.{Text, codes}
use bo_srv_rs.Cache.{OnceCell, empty}
use bo_srv_rs.Cache.Layout.{new_service_cache}
use bo_srv_rs.Json.Sample.{Sample, words}
use bo_srv_rs.Service.Handling.{Surroundings}
use bo_srv_rs.Service.Keys.{
  GridQuery, GlobalGridQuery, LocalGridQuery, GlobalClusterQuery, LocalClusterQuery,
}
use bo_srv_rs.Service.Server.{Service, ServiceError, database, Ages, Backend}
use bo_srv_rs.ServiceLog.Entry.{ServiceLogEntry}
use bo_srv_rs.ServiceLog.Queue.{Channel, Sent, accepted, full}
use bo_srv_rs.Transport.Headers.{Request}

unfoldable pub text_discrete : Discrete Text
text_discrete = List-discrete ℕ_discrete

abbrev pub R : Type 0
R = Result Sample ServiceError

abbrev pub fill_cell : Option R → R → Option R
fill_cell none r = some r
fill_cell (some v) r = some v

pub fill_empty : (c : Option R) (r : R) → c ≡ none → fill_cell c r ≡ some r
fill_empty c r h = ground arith

pub fill_filled : (c : Option R) (r v : R) → c ≡ some v → fill_cell c r ≡ some v
fill_filled c r v h = ground arith

abbrev pub once : OnceCell (Option R) R
once = record {
  new = none;
  get = λ c. c;
  get_or_init = fill_cell;
  get-new = refl;
  init_empty = fill_empty;
  init_filled = fill_filled;
}

-- A queue for two entries; a float is a number of hundredths.
abbrev pub Queue : Type 0
Queue = List (ServiceLogEntry ℕ)

abbrev pub send : ServiceLogEntry ℕ → Queue → Queue × Sent
send entry q = if ltb (length q) 2 then (q ++ entry ∷ [], accepted) else (q, full)

pub send_accepted :
    (entry : ServiceLogEntry ℕ) (q : Queue)
    → (send entry q).1 ≡ accepted
    → (send entry q).0 ≡ q ++ entry ∷ []
send_accepted entry q h = elim (Bool-cases (ltb (length q) 2)) [
  | inl e ↦ rw e refl
  | inr e ↦ let bad : full ≡ accepted = rw e at h in cc
]

pub send_refused :
    (entry : ServiceLogEntry ℕ) (q : Queue) → (send entry q).1 ≢ accepted → (send entry q).0 ≡ q
send_refused entry q h = elim (Bool-cases (ltb (length q) 2)) [
  | inl e ↦ let bad : accepted ≢ accepted = rw e at h in absurd (bad refl)
  | inr e ↦ rw e refl
]

abbrev pub two_places : Channel Queue (ServiceLogEntry ℕ)
two_places = record {
  waiting = λ q. q;
  try_send = send;
  send_accepted = send_accepted;
  send_refused = send_refused;
}

-- A database that answers each query with one value.
abbrev pub answering : R → Backend Sample
answering r = record {
  strikes_grid = λ _. r;
  global_strikes_grid = λ _. r;
  local_strikes_grid = λ _. r;
  global_clusters = λ _. r;
  local_clusters = λ _. r;
}

abbrev pub around : R → ℕ → Surroundings Sample ℕ
around r now = record {
  backend = answering r;
  clock = record { cache_now = now; log_now_us = pos 5 };
  fill_percent = λ _. none;
  no_fill = 0;
  reason_text = λ _. codes "forbidden";
  error_text = λ _. codes "error";
}

abbrev pub monday : Surroundings Sample ℕ
monday = around (ok (words (codes "first"))) 1000000000

abbrev pub later : Surroundings Sample ℕ
later = around (err (database (codes "down"))) 9000000000

abbrev pub no_entries : Ages (Option R)
no_entries = record { current = empty none; history = empty none }

unfoldable pub fresh : Service (Option R) Queue
unfolding new_service_cache
fresh = record {
  forbidden_ips = [];
  cache = new_service_cache;
  check_count = pos 0;
  service_log = some (record { sender = []; dropped = 0; warnings = 0 });
  strikes = no_entries;
  global_strikes = no_entries;
  local_strikes = no_entries;
  global_clusters = no_entries;
  local_clusters = no_entries;
}

abbrev pub request : Request
request = record {
  user_agent = some (codes "bo-android-150");
  client_ip = some (codes "10.0.0.9");
  x_forwarded_for = none;
  content_type = some (codes "text/json");
  referer = none;
  accept_encoding = some (codes "gzip");
  accept_encoding_removed = false;
  blocked_reason = none;
}

abbrev pub query : GridQuery
query = record {
  minute_length = pos 60;
  grid_base_length = pos 10000;
  minute_offset = pos 0;
  region = pos 1;
  count_threshold = pos 0;
}

-- It asks for a region that there is not.
abbrev pub beyond : GridQuery
beyond = record query { region = negsuc 3; count_threshold = negsuc 0 }

abbrev pub world : GlobalGridQuery
world = record {
  minute_length = pos 60;
  grid_base_length = pos 25000;
  minute_offset = pos 0;
  count_threshold = pos 0;
}

abbrev pub near : LocalGridQuery
near = record {
  x = pos 1;
  y = negsuc 1;
  grid_base_length = pos 5000;
  minute_length = pos 60;
  minute_offset = pos 0;
  count_threshold = pos 0;
  data_area = pos 5;
}

abbrev pub storms : GlobalClusterQuery
storms = record { minute_length = pos 60; minute_offset = pos 0; interval_count = pos 1 }

abbrev pub here_storms : LocalClusterQuery
here_storms = record {
  x = pos 1;
  y = negsuc 1;
  minute_length = pos 60;
  minute_offset = pos 0;
  data_area = pos 5;
  interval_count = pos 1;
}
