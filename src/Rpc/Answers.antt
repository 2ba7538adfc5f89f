-- ===== src/Rpc/Answers.antt =====
-- Every message is answered (src/jsonrpc.rs): `process` never panics, whatever the body.
use mathlib.Core.Option
use bo_srv_rs.Common.{
  ℕ, zero, suc, ◌+◌, ◌≤◌, ◌<◌, List, [], ◌∷◌, ◌++◌, Option, none, some, ◌≡◌, refl, arith, length,
  get_elem?, inl, inr, take, length-append, length-take, leb, leb→le, Bool-cases, Option-cases,
}
use bo_srv_rs.Common.Result.{Result, ok, err}
use bo_srv_rs.Common.Text.Decimal.{Text, codes}
use bo_srv_rs.Json.{Json}
use bo_srv_rs.Transport.Headers.{Request}
use bo_srv_rs.Rpc.Messages.{RequestMeta, Envelope, bounded}
use bo_srv_rs.Rpc.Methods.{
  Method, check, get_strikes, get_strikes_grid, get_strikes_raster, get_strokes_raster,
  get_global_strikes_grid, get_local_strikes_grid, get_global_clusters, get_local_clusters,
  method_named, method_spec, ArgError, invalid_params_type, missing_required,
}
use bo_srv_rs.Rpc.Args.{resolve_args-described, length-described}
use bo_srv_rs.Rpc.Invoke.{Handled, Handlers, invoke}
use bo_srv_rs.Rpc.Requests.{
  id_of, params_of, args_of, name_of, IsRequest, IsCall, no_method, unknown_method, no_params,
  no_argument, Reply, refused, returned, failed, Answered,
}
use bo_srv_rs.Rpc.Dispatch.{Processed, answer, call, process_method}

abbrev IsDefined {ℓ} : {A : Type ℓ} → Option A → Type 0
IsDefined none = ⊥
IsDefined (some _) = Unit

-- An index within a list has an element.
elem_at {ℓ} :
    {A : Type ℓ} (xs : List A) (i : ℕ) → i < length xs → (a : A) × (get_elem? xs i ≡ some a)
elem_at [] i h = absurd (omega (arith, h))
elem_at (x ∷ xs) zero h = (x, refl)
elem_at (x ∷ xs) (suc i) h = elem_at xs i (omega (arith, h))

length-cut : (n : ℕ) (t : Text) → length (take n t ++ codes "…") ≤ n + 1
length-cut n t = omega (arith, length-append (take n t) (codes "…"), length-take n t)

pub length-bounded : (t : Text) → length (bounded t) ≤ 161
unfolding bounded
length-bounded t = elim (Bool-cases (leb (length t) 160)) [
  | inl short ↦ rw short (omega (arith, leb→le (length t) 160 short))
  | inr long ↦ rw long (length-cut 160 t)
]

module _ (j : Json) {S E : Type 0} (h : Handlers j.Value S E) where
  open j use {Value, null_value, from_str, to_string}

  invoke-IsDefined :
      (r : Request) (m : Method) (args : List Value) (s : S)
      → length args ≡ length (method_spec m)
      → IsDefined (invoke j h r m args s)
  unfolding invoke method_spec
  invoke-IsDefined r check args s e = tt
  invoke-IsDefined r get_strikes args s e =
      let (a0, e0) = elem_at args 0 (omega (arith, e)) in rw e0 tt
  invoke-IsDefined r get_strikes_grid args s e =
      let (a0, e0) = elem_at args 0 (omega (arith, e)) in
      let (a1, e1) = elem_at args 1 (omega (arith, e)) in
      let (a2, e2) = elem_at args 2 (omega (arith, e)) in
      let (a3, e3) = elem_at args 3 (omega (arith, e)) in
      let (a4, e4) = elem_at args 4 (omega (arith, e)) in rw (e0, e1, e2, e3, e4) tt
  invoke-IsDefined r get_strikes_raster args s e =
      let (a0, e0) = elem_at args 0 (omega (arith, e)) in
      let (a1, e1) = elem_at args 1 (omega (arith, e)) in
      let (a2, e2) = elem_at args 2 (omega (arith, e)) in
      let (a3, e3) = elem_at args 3 (omega (arith, e)) in rw (e0, e1, e2, e3) tt
  invoke-IsDefined r get_strokes_raster args s e =
      let (a0, e0) = elem_at args 0 (omega (arith, e)) in
      let (a1, e1) = elem_at args 1 (omega (arith, e)) in
      let (a2, e2) = elem_at args 2 (omega (arith, e)) in
      let (a3, e3) = elem_at args 3 (omega (arith, e)) in rw (e0, e1, e2, e3) tt
  invoke-IsDefined r get_global_strikes_grid args s e =
      let (a0, e0) = elem_at args 0 (omega (arith, e)) in
      let (a1, e1) = elem_at args 1 (omega (arith, e)) in
      let (a2, e2) = elem_at args 2 (omega (arith, e)) in
      let (a3, e3) = elem_at args 3 (omega (arith, e)) in rw (e0, e1, e2, e3) tt
  invoke-IsDefined r get_local_strikes_grid args s e =
      let (a0, e0) = elem_at args 0 (omega (arith, e)) in
      let (a1, e1) = elem_at args 1 (omega (arith, e)) in
      let (a2, e2) = elem_at args 2 (omega (arith, e)) in
      let (a3, e3) = elem_at args 3 (omega (arith, e)) in
      let (a4, e4) = elem_at args 4 (omega (arith, e)) in
      let (a5, e5) = elem_at args 5 (omega (arith, e)) in
      let (a6, e6) = elem_at args 6 (omega (arith, e)) in rw (e0, e1, e2, e3, e4, e5, e6) tt
  invoke-IsDefined r get_global_clusters args s e =
      let (a0, e0) = elem_at args 0 (omega (arith, e)) in
      let (a1, e1) = elem_at args 1 (omega (arith, e)) in
      let (a2, e2) = elem_at args 2 (omega (arith, e)) in rw (e0, e1, e2) tt
  invoke-IsDefined r get_local_clusters args s e =
      let (a0, e0) = elem_at args 0 (omega (arith, e)) in
      let (a1, e1) = elem_at args 1 (omega (arith, e)) in
      let (a2, e2) = elem_at args 2 (omega (arith, e)) in
      let (a3, e3) = elem_at args 3 (omega (arith, e)) in
      let (a4, e4) = elem_at args 4 (omega (arith, e)) in
      let (a5, e5) = elem_at args 5 (omega (arith, e)) in rw (e0, e1, e2, e3, e4, e5) tt

  Reply-some :
      {r : Request} {s : S} {body : Text} (p : Processed j h)
      → Reply j h r s body p
      → length p.1.1.meta.params ≤ 161
      → Answered j h r s body (some p)
  Reply-some p q b = (p, refl, q, b)

  answer-Answered :
      (r : Request) (s : S) (body : Text) (meta : RequestMeta) (req : Value) (envelope : Envelope)
      (m : Method) (args : List Value)
      → IsCall j body req envelope m
      → args_of j m req ≡ ok args
      → length meta.params ≤ 161
      → (o : Option (Handled Value S E)) → invoke j h r m args s ≡ o
      → IsDefined o
      → Answered j h r s body (Option.map (answer j h meta envelope (id_of j req)) o)
  unfolding answer
  answer-Answered r s body meta req envelope m args is given b none i d = absurd d
  answer-Answered r s body meta req envelope m args is given b (some (s', (r', ok result))) i d =
      Reply-some _ (returned req envelope m args result s' r' _ is given i refl refl) b
  answer-Answered r s body meta req envelope m args is given b (some (s', (r', err x))) i d =
      Reply-some _ (failed req envelope m args x s' r' _ is given i refl refl) b

  call-Answered :
      (r : Request) (s : S) (body : Text) (meta : RequestMeta) (req : Value) (envelope : Envelope)
      (m : Method) (resolved : Result (List Value) ArgError)
      → IsCall j body req envelope m
      → args_of j m req ≡ resolved
      → length meta.params ≤ 161
      → Answered j h r s body (call j h r meta envelope (id_of j req) m resolved s)
  unfolding call
  call-Answered r s body meta req envelope m (err invalid_params_type) is e b =
      Reply-some _ (refused _ _ _ _ _ (no_params req envelope m is e) refl refl) b
  call-Answered r s body meta req envelope m (err (missing_required name)) is e b =
      Reply-some _ (refused _ _ _ _ _ (no_argument req envelope m name is e) refl refl) b
  call-Answered r s body meta req envelope m (ok args) is e b =
      answer-Answered r s body meta req envelope m args is e b (invoke j h r m args s) refl
        (invoke-IsDefined r m args s (length-described j m (j.view (params_of j req)) args e))

  pub process_method-Answered :
      (r : Request) (s : S) (body : Text) (meta : RequestMeta) (req : Value) (envelope : Envelope)
      (name : Option Text)
      → IsRequest j body req envelope
      → name_of j req ≡ name
      → length meta.params ≤ 161
      → Answered j h r s body (process_method j h r meta envelope req (id_of j req) name s)
  unfolding process_method
  process_method-Answered r s body meta req envelope none is n b =
      Reply-some _ (refused _ _ _ _ _ (no_method req envelope is n) refl refl) b
  process_method-Answered r s body meta req envelope (some name) is n b =
      elim (Option-cases (method_named name)) [
        | inl e ↦
            rw (process_method, e)
              (Reply-some _ (refused _ _ _ _ _ (unknown_method req envelope name is n e) refl refl)
                b)
        | inr (m, e) ↦
            rw (process_method, e, resolve_args-described j m (params_of j req))
              (call-Answered r s body (record meta { method = some name }) req envelope m
                (args_of j m req) (record { request = is; name = name; named = n; known = e }) refl
                b)
      ]
