-- ===== src/Service/Effects/Grids.antt =====
-- The branches of the three grid handlers of src/service.rs.
use bo_srv_rs.Common.{[], ◌∷◌, refl, inl, inr, Option-cases}
use bo_srv_rs.Common.Result.{Result}
use bo_srv_rs.Common.Text.Decimal.{Text}
use bo_srv_rs.Cache.{OnceCell}
use bo_srv_rs.Json.{Json}
use bo_srv_rs.Service.Access.{forbidden_reason, min_grid_base_length, global_min_grid_base_length}
use bo_srv_rs.Service.Client.{request_client, user_agent_client}
use bo_srv_rs.Service.Grids.{
  serve_strikes_grid, serve_global_strikes_grid, serve_local_strikes_grid, jsonrpc_get_strikes_grid,
  jsonrpc_get_global_strikes_grid, jsonrpc_get_local_strikes_grid,
}
use bo_srv_rs.Service.Handling.{Surroundings}
use bo_srv_rs.Service.Server.{Service, ServiceError}
use bo_srv_rs.ServiceLog.Entry.{ServiceLogEntry, region_entry, global_entry, local_entry}
use bo_srv_rs.Service.Keys.{GridQuery, GlobalGridQuery, LocalGridQuery}
use bo_srv_rs.ServiceLog.Queue.{Channel}
use bo_srv_rs.Transport.Headers.{Request}
use bo_srv_rs.Service.Effects.{Effects, no_integers, rejected, respond-Effects}
use bo_srv_rs.Service.Effects.Reading.{
  Reads, grid_values, global_grid_values, local_grid_values, grid_params-read,
  global_grid_params-read, local_grid_params-read,
}
use bo_srv_rs.Service.Effects.Tables.{
  strikes_grid_rules, global_strikes_grid_rules, local_strikes_grid_rules,
}

module _ (j : Json) {C F Q : Type 0} (channel : Channel Q (ServiceLogEntry F))
    (env : Surroundings j.Value F) (dec : Discrete Text)
    (once : OnceCell C (Result j.Value ServiceError)) where
  open j use {Value}

  serve_strikes_grid-Effects :
      (r : Request) (a b c d f : Value) (p : GridQuery) (s : Service C Q)
      → Reads j (a ∷ b ∷ c ∷ d ∷ f ∷ []) (grid_values j p)
      → Effects j channel env
          (strikes_grid_rules j env dec once r a b c d f s)
          r
          s
          (serve_strikes_grid j dec once channel env r p s)
  unfolding serve_strikes_grid region_entry
  serve_strikes_grid-Effects r a b c d f p s reads =
      elim (Option-cases (
        forbidden_reason s.forbidden_ips r (request_client r) (user_agent_client r)
          p.grid_base_length min_grid_base_length)) [
            | inl e ↦
                rw (e, serve_strikes_grid)
                  (respond-Effects j channel env (strikes_grid_rules j env dec once r a b c d f s) p
                    _ r s _ _ reads e refl (refl, refl, refl) refl (λ v. (refl, refl)))
            | inr (reason, e) ↦ rw (e, serve_strikes_grid) (rejected p reason reads e)
          ]

  pub jsonrpc_get_strikes_grid-Effects :
      (r : Request) (a b c d f : Value) (s : Service C Q)
      → Effects j channel env
          (strikes_grid_rules j env dec once r a b c d f s)
          r
          s
          (jsonrpc_get_strikes_grid j dec once channel env r a b c d f s)
  unfolding jsonrpc_get_strikes_grid
  jsonrpc_get_strikes_grid-Effects r a b c d f s = elim (grid_params-read j a b c d f) [
    | inl (e, unread) ↦ rw (e, jsonrpc_get_strikes_grid) (no_integers unread)
    | inr (p, e, reads) ↦
        rw (e, jsonrpc_get_strikes_grid) (serve_strikes_grid-Effects r a b c d f p s reads)
  ]

  serve_global_strikes_grid-Effects :
      (r : Request) (a b c d : Value) (p : GlobalGridQuery) (s : Service C Q)
      → Reads j (a ∷ b ∷ c ∷ d ∷ []) (global_grid_values j p)
      → Effects j channel env
          (global_strikes_grid_rules j env dec once r a b c d s)
          r
          s
          (serve_global_strikes_grid j dec once channel env r p s)
  unfolding serve_global_strikes_grid global_entry
  serve_global_strikes_grid-Effects r a b c d p s reads =
      elim (Option-cases (
        forbidden_reason s.forbidden_ips r (request_client r) (user_agent_client r)
          p.grid_base_length global_min_grid_base_length)) [
            | inl e ↦
                rw (e, serve_global_strikes_grid)
                  (respond-Effects j channel env
                    (global_strikes_grid_rules j env dec once r a b c d s) p _ r s _ _ reads e refl
                    (refl, refl, refl) refl (λ v. (refl, refl)))
            | inr (reason, e) ↦ rw (e, serve_global_strikes_grid) (rejected p reason reads e)
          ]

  pub jsonrpc_get_global_strikes_grid-Effects :
      (r : Request) (a b c d : Value) (s : Service C Q)
      → Effects j channel env
          (global_strikes_grid_rules j env dec once r a b c d s)
          r
          s
          (jsonrpc_get_global_strikes_grid j dec once channel env r a b c d s)
  unfolding jsonrpc_get_global_strikes_grid
  jsonrpc_get_global_strikes_grid-Effects r a b c d s = elim (global_grid_params-read j a b c d) [
    | inl (e, unread) ↦ rw (e, jsonrpc_get_global_strikes_grid) (no_integers unread)
    | inr (p, e, reads) ↦
        rw (e, jsonrpc_get_global_strikes_grid)
          (serve_global_strikes_grid-Effects r a b c d p s reads)
  ]

  serve_local_strikes_grid-Effects :
      (r : Request) (a b c d f g h : Value) (p : LocalGridQuery) (s : Service C Q)
      → Reads j (a ∷ b ∷ c ∷ d ∷ f ∷ g ∷ h ∷ []) (local_grid_values j p)
      → Effects j channel env
          (local_strikes_grid_rules j env dec once r a b c d f g h s)
          r
          s
          (serve_local_strikes_grid j dec once channel env r p s)
  unfolding serve_local_strikes_grid local_entry
  serve_local_strikes_grid-Effects r a b c d f g h p s reads =
      elim (Option-cases (
        forbidden_reason s.forbidden_ips r (request_client r) (user_agent_client r)
          p.grid_base_length min_grid_base_length)) [
            | inl e ↦
                rw (e, serve_local_strikes_grid)
                  (respond-Effects j channel env
                    (local_strikes_grid_rules j env dec once r a b c d f g h s) p _ r s _ _ reads e
                    refl (refl, refl, refl) refl (λ v. (refl, refl)))
            | inr (reason, e) ↦ rw (e, serve_local_strikes_grid) (rejected p reason reads e)
          ]

  pub jsonrpc_get_local_strikes_grid-Effects :
      (r : Request) (a b c d f g h : Value) (s : Service C Q)
      → Effects j channel env
          (local_strikes_grid_rules j env dec once r a b c d f g h s)
          r
          s
          (jsonrpc_get_local_strikes_grid j dec once channel env r a b c d f g h s)
  unfolding jsonrpc_get_local_strikes_grid
  jsonrpc_get_local_strikes_grid-Effects r a b c d f g h s =
      elim (local_grid_params-read j a b c d f g h) [
        | inl (e, unread) ↦ rw (e, jsonrpc_get_local_strikes_grid) (no_integers unread)
        | inr (p, e, reads) ↦
            rw (e, jsonrpc_get_local_strikes_grid)
              (serve_local_strikes_grid-Effects r a b c d f g h p s reads)
      ]
