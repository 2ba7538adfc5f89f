-- ===== src/Service/Repeats.antt =====
-- A request for a grid that repeats an earlier one (src/service.rs).
use bo_srv_rs.Common.{◌<◌, none, ◌≡◌, refl, ap, ◌∙◌, sym, Bool-cases, inl, inr, Option-cases}
use bo_srv_rs.Common.Int.{ℤ, pos, ◌==ℤ◌}
use bo_srv_rs.Common.Result.{Result, ok, err}
use bo_srv_rs.Common.Text.Decimal.{Text}
use bo_srv_rs.Cache.{OnceCell, Store, ObjectCache, claim, get_result_at, seconds}
use bo_srv_rs.Cache.Flight.{get_result_at-get_result_at}
use bo_srv_rs.Cache.Invariant.{IsValid}
use bo_srv_rs.Cache.Layout.{strikes}
use bo_srv_rs.Json.{Json}
use bo_srv_rs.Service.Access.{forbidden_reason, min_grid_base_length}
use bo_srv_rs.Service.Client.{request_client, user_agent_client}
use bo_srv_rs.Service.Grids.{serve_strikes_grid}
use bo_srv_rs.Service.Handling.{Surroundings, respond, strip_header, record_usage}
use bo_srv_rs.Service.Keys.{GridQuery, strikes_grid_key}
use bo_srv_rs.Service.Params.{limit_grid}
use bo_srv_rs.Service.Server.{Service, ServiceError, Ages, store_at, put_store}
use bo_srv_rs.ServiceLog.Entry.{ServiceLogEntry}
use bo_srv_rs.ServiceLog.Queue.{Channel}
use bo_srv_rs.Transport.Headers.{Request}

store_at-put_store :
    {C : Type 0} (offset : ℤ) (s : Store Text C) (ages : Ages C)
    → store_at offset (put_store offset s ages) ≡ s
store_at-put_store offset s ages = elim (Bool-cases (offset ==ℤ pos 0)) [
  | inl e ↦ rw e refl
  | inr e ↦ rw e refl
]

module _ (j : Json) {C F Q : Type 0} (channel : Channel Q (ServiceLogEntry F)) where
  -- What stays when the usage is recorded, and the answer.
  respond-parts :
      (change : Request → Request) (entry : j.Value → ServiceLogEntry F) (r : Request)
      (s : Service C Q) (result : Result j.Value ServiceError)
      → ((respond channel change entry r s result).1.1 ≡ result)
        × ((respond channel change entry r s result).0.strikes ≡ s.strikes)
        × ((respond channel change entry r s result).0.cache ≡ s.cache)
        × ((respond channel change entry r s result).0.forbidden_ips ≡ s.forbidden_ips)
  unfolding record_usage
  respond-parts change entry r s (err e) = (refl, refl, refl, refl)
  respond-parts change entry r s (ok v) = elim (Option-cases s.service_log) [
    | inl e ↦ rw e (refl, refl, refl, refl)
    | inr (log, e) ↦ rw e (refl, refl, refl, refl)
  ]

  module _ (dec : Discrete Text) (once : OnceCell C (Result j.Value ServiceError)) where
    -- The store that a query of a grid looks into, and its key there.
    abbrev pub grid_store : GridQuery → Service C Q → Store Text C
    grid_store q s = store_at q.minute_offset s.strikes

    abbrev pub grid_cache : GridQuery → Service C Q → ObjectCache
    grid_cache q s = strikes s.cache q.minute_offset

    -- The call of the cache.
    abbrev pub cached :
        Surroundings j.Value F
        → GridQuery
        → Service C Q
        → Store Text C × Result j.Value ServiceError
    cached env q s =
        get_result_at dec once (grid_cache q s) (strikes_grid_key q) (env.backend.strikes_grid q)
          env.clock.cache_now (grid_store q s)

    abbrev pub IsAdmitted : Request → GridQuery → Service C Q → Type 0
    IsAdmitted r p s =
        forbidden_reason s.forbidden_ips r (request_client r) (user_agent_client r)
          p.grid_base_length min_grid_base_length
        ≡ none

    serve-parts :
        (env : Surroundings j.Value F) (r : Request) (p : GridQuery) (s : Service C Q)
        → IsAdmitted r p s
        → ((serve_strikes_grid j dec once channel env r p s).1.1 ≡ (cached env (limit_grid p) s).1)
          × (grid_store (limit_grid p) (serve_strikes_grid j dec once channel env r p s).0
              ≡ (cached env (limit_grid p) s).0)
          × ((serve_strikes_grid j dec once channel env r p s).0.cache ≡ s.cache)
          × ((serve_strikes_grid j dec once channel env r p s).0.forbidden_ips ≡ s.forbidden_ips)
    unfolding serve_strikes_grid
    serve-parts env r p s e =
        let q = limit_grid p in
        let next = record s { strikes = put_store q.minute_offset (cached env q s).0 s.strikes } in
        let parts = respond-parts strip_header _ r next (cached env q s).1 in
        rw (e, serve_strikes_grid)
          (
            parts.0,
            ap (store_at q.minute_offset) parts.1
                ∙ store_at-put_store q.minute_offset (cached env q s).0 s.strikes,
            parts.2,
            parts.3,
          )

    -- A request for a grid was given a response. Then a later request of another client, at
    -- another time and whatever the database would answer then, is given the same response, if
    -- both requests are allowed, their values are the same once they are within their limits,
    -- and the entry of the first one has not expired.
    pub serve_strikes_grid-serve_strikes_grid :
        (env later : Surroundings j.Value F) (r r' : Request) (p p' : GridQuery) (s : Service C Q)
        (v : j.Value)
        → IsValid (grid_cache (limit_grid p) s) (grid_store (limit_grid p) s)
        → IsAdmitted r p s
        → IsAdmitted r' p' s
        → limit_grid p' ≡ limit_grid p
        → (serve_strikes_grid j dec once channel env r p s).1.1 ≡ ok v
        → seconds later.clock.cache_now
          < (claim dec once
              (grid_cache (limit_grid p) s)
              (strikes_grid_key (limit_grid p))
              env.clock.cache_now
              (grid_store (limit_grid p) s)).1.0.expires
        → (serve_strikes_grid j dec once channel later r' p'
            (serve_strikes_grid j dec once channel env r p s).0).1.1
          ≡ ok v
    serve_strikes_grid-serve_strikes_grid env later r r' p p' s v valid allowed allowed' same h lt =
        let q = limit_grid p in
        let s1 = (serve_strikes_grid j dec once channel env r p s).0 in
        let first = serve-parts env r p s allowed in
        let given : (cached env q s).1 ≡ ok v = sym first.0 ∙ h in
        let admitted : IsAdmitted r' p' s1 = rw first.3 allowed' in
        let second = serve-parts later r' p' s1 admitted in
        let cached_again : (cached later q s1).1 ≡ ok v =
          ap
            (λ cache.
              (get_result_at dec once (strikes cache q.minute_offset) (strikes_grid_key q)
                (later.backend.strikes_grid q) later.clock.cache_now (grid_store q s1)).1)
            first.2
          ∙ ap
              (λ store.
                (get_result_at dec once (grid_cache q s) (strikes_grid_key q)
                  (later.backend.strikes_grid q) later.clock.cache_now store).1)
              first.1
          ∙ get_result_at-get_result_at dec once (grid_cache q s) (strikes_grid_key q)
              env.clock.cache_now later.clock.cache_now v (env.backend.strikes_grid q)
              (later.backend.strikes_grid q) (grid_store q s) valid given lt in
        second.0 ∙ ap (λ x. (cached later x s1).1) same ∙ cached_again
