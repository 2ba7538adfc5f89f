-- ===== src/Cache/Tests.antt =====
-- Runs of the response cache (src/cache.rs) on small inputs, and its theorems at inputs that
-- meet their hypotheses.
use mathlib.Core.List.{lookup}
use native.Mathlib.Decide.{ℕ_discrete as dec}
use bo_srv_rs.Common.{ℕ, Bool, [], ◌∷◌, Option, none, some, ◌≡◌, refl, arith}
use bo_srv_rs.Common.Result.{Result, ok, err}
use bo_srv_rs.Cache.Defs.{
  CacheEntry, ObjectCache, Store, OnceCell, remove, drop_key, remove_oldest_entry, track_usage,
  expired, drop_keys, clean_expired, cleanup, valid_entry, make_room, insert, claim_hit, claim_miss,
  count_call, claim, fast_path, drive, retire, settle, get_result_at, get, clear, empty,
}
use bo_srv_rs.Cache.Invariant.{IsValid, empty-IsValid, claim-IsValid}
use bo_srv_rs.Cache.Flight.{here, next, claimed, Reach-IsValid, single_flight, settle-Reach}

program : Unit {0}
unfolding remove drop_key remove_oldest_entry track_usage expired drop_keys clean_expired cleanup
    valid_entry make_room insert claim_hit claim_miss count_call claim fast_path drive retire settle
    get_result_at get clear dec lookup
program = tt

abbrev R : Type 0
R = Result ℕ ℕ

abbrev fill : Option R → R → Option R
fill none r = some r
fill (some v) r = some v

fill_empty : (c : Option R) (r : R) → c ≡ none → fill c r ≡ some r
fill_empty c r h = ground arith

fill_filled : (c : Option R) (r v : R) → c ≡ some v → fill c r ≡ some v
fill_filled c r v h = ground arith

abbrev once : OnceCell (Option R) R
once = record {
  new = none;
  get = λ c. c;
  get_or_init = fill;
  get-new = refl;
  init_empty = fill_empty;
  init_filled = fill_filled;
}

abbrev second : ℕ
second = 1000000000

abbrev small : ObjectCache
small = record { ttl_seconds = 20; size = some 2; cleanup_period = some 300000000000 }

abbrev start : Store ℕ (Option R)
start = empty none

abbrev S : Type 0
S = Store ℕ (Option R)

-- Three keys in a cache of size two: the first one is lost, and is computed again.
abbrev one : S × R
one = get_result_at dec once small 1 (ok 10) 1000000000 start

abbrev two : S × R
two = get_result_at dec once small 2 (ok 20) 2000000000 one.0

abbrev three : S × R
three = get_result_at dec once small 3 (ok 30) 3000000000 two.0

keys-three : three.0.inner.keys ≡ 2 ∷ 3 ∷ []
unfolding program
keys-three = refl

hit-two : (get_result_at dec once small 2 (ok 99) 4000000000 three.0).1 ≡ ok 20
unfolding program
hit-two = refl

expired-two : (get_result_at dec once small 2 (ok 99) 22000000000 three.0).1 ≡ ok 99
unfolding program
expired-two = refl

-- A failure is returned and not kept.
abbrev failed : S × R
failed = get_result_at dec once small 7 (err 1) 1000000000 start

failed-keys : (failed.1 ≡ err 1) × (failed.0.inner.keys ≡ [])
unfolding program
failed-keys = (refl, refl)

null_on_failure : (get dec once 0 small 7 (err 1) 1000000000 start).1 ≡ 0
unfolding program
null_on_failure = refl

start-IsValid : IsValid small start
start-IsValid = empty-IsValid small none

abbrev claimed_one : S × (CacheEntry × Bool)
claimed_one = claim dec once small 1 1000000000 start

claimed_one-IsValid : IsValid small claimed_one.0
claimed_one-IsValid = claim-IsValid dec once small 1 1000000000 start start-IsValid

Reach-IsValid_example : IsValid small claimed_one.0
Reach-IsValid_example = Reach-IsValid dec once small none (next here (claimed 1 1000000000 start))

single_flight_example :
    (drive dec once claimed_one.1.0
      (err 5)
      (drive dec once claimed_one.1.0 (ok 10) claimed_one.0).0).1
    ≡ ok 10
unfolding program
single_flight_example =
    single_flight dec once small claimed_one.0 claimed_one.1.0 (ok 10) (err 5) here (omega arith)
      refl

abbrev claimed_two : S
claimed_two = (claim dec once small 2 2000000000 claimed_one.0).0

abbrev between : S
between = (claim dec once small 2 2000000000 one.0).0

-- The entry expires while its producer runs, a second task gets a new one, and the first fails.
abbrev claimed_again : S × (CacheEntry × Bool)
claimed_again = claim dec once small 1 22000000000 claimed_two

settle-Reach_example :
    lookup dec 1 (settle dec once 1 claimed_one.1.0 (err 4) claimed_again.0).0.inner.cache
    ≡ some (record { expires = 42; cell = 2 })
unfolding program
settle-Reach_example =
    settle-Reach dec once small 1 1000000000 22000000000 (err 4) start start-IsValid
      (next here (claimed 2 2000000000 claimed_one.0)) refl
