-- ===== src/Service/Access.antt =====
-- Which requests are forbidden: `forbidden_client_reason` and `forbidden_reason`
-- (src/service.rs). A reason is the kind of the message with the values that it quotes.
use bo_srv_rs.Common.{
  Bool, true, false, not, ◌||◌, List, [], ◌∷◌, Option, none, some, ◌≡◌, ◌↔◌, refl, ap, arith,
  if◌then◌else◌, Option-cases, inl, inr, ◌⊎◌,
}
use bo_srv_rs.Common.Int.{ℤ, pos, ◌==ℤ◌, ltb_ℤ, ◌≤ℤ◌}
use bo_srv_rs.Common.Text.Decimal.{Text, codes}
use bo_srv_rs.Common.Text.Order.{text_eq, text_eq_iff, contains_text}
use bo_srv_rs.Common.Text.Trim.{is_empty}
use bo_srv_rs.Transport.Headers.{Request}
use bo_srv_rs.Service.Client.{UserAgentClient}

abbrev pub json_content_type : Text
json_content_type = codes "text/json"

abbrev pub min_grid_base_length : ℤ
min_grid_base_length = pos 5000

abbrev pub global_min_grid_base_length : ℤ
global_min_grid_base_length = pos 25000

abbrev pub valid_grid_base_lengths : List ℤ
valid_grid_base_lengths = pos 5000 ∷ pos 10000 ∷ pos 25000 ∷ pos 50000 ∷ pos 100000 ∷ []

pub data Reason : Type 0 where
  blocked_ip : Option Text → Reason
  invalid_user_agent : Option Text → Reason
  bad_content_type : Option Text → Reason
  referer_given : Option Text → Reason
  below_minimum : ℤ → ℤ → Reason
  invalid_grid : ℤ → Reason

abbrev pub contains_ℤ : List ℤ → ℤ → Bool
contains_ℤ [] z = false
contains_ℤ (x ∷ xs) z = x ==ℤ z || contains_ℤ xs z

abbrev pub is_some_and {ℓ} : {A : Type ℓ} → (A → Bool) → Option A → Bool
is_some_and p none = false
is_some_and p (some a) = p a

abbrev pub is_none_client : Option UserAgentClient → Bool
is_none_client none = true
is_none_client (some _) = false

unfoldable pub forbidden_client_reason :
    List Text → Request → Option Text → Option UserAgentClient → Option Reason
forbidden_client_reason forbidden_ips r client client_kind =
    if is_some_and (contains_text forbidden_ips) client
    then some (blocked_ip client)
    else if is_none_client client_kind
    then some (invalid_user_agent r.user_agent)
    else if not (is_some_and (λ t. text_eq t json_content_type) r.content_type)
    then some (bad_content_type r.content_type)
    else if is_some_and (λ t. not (is_empty t)) r.referer
    then some (referer_given r.referer)
    else none

unfoldable pub forbidden_reason :
    List Text
    → Request
    → Option Text
    → Option UserAgentClient
    → (grid_base_length minimum : ℤ) → Option Reason
unfolding forbidden_client_reason
forbidden_reason forbidden_ips r client client_kind grid_base_length minimum =
    elim (forbidden_client_reason forbidden_ips r client client_kind) [
      | some reason ↦ some reason
      | none ↦
          if ltb_ℤ grid_base_length minimum
          then some (below_minimum grid_base_length minimum)
          else if not (contains_ℤ valid_grid_base_lengths grid_base_length)
          then some (invalid_grid grid_base_length)
          else none
    ]

-- What an allowed request has.
pub record IsAllowed (forbidden_ips : List Text) (r : Request) (client : Option Text)
    (client_kind : Option UserAgentClient) : Type 0 where
  pub address : is_some_and (contains_text forbidden_ips) client ≡ false
  pub known : is_none_client client_kind ≡ false
  pub json : r.content_type ≡ some json_content_type
  pub no_referer : (r.referer ≡ none) ⊎ (r.referer ≡ some [])

json-content_type :
    (o : Option Text)
    → not (is_some_and (λ t. text_eq t json_content_type) o) ≡ false
    → o ≡ some json_content_type
json-content_type none h = cc
json-content_type (some t) h = ap some ((text_eq_iff t json_content_type).0 (ground (arith, h)))

referer-empty :
    (o : Option Text) → is_some_and (λ t. not (is_empty t)) o ≡ false → (o ≡ none) ⊎ (o ≡ some [])
referer-empty none h = inl refl
referer-empty (some []) h = inr refl
referer-empty (some (c ∷ t)) h = cc

IsAllowed-client :
    (ips : List Text) (r : Request) (client : Option Text) (kind : Option UserAgentClient)
    → forbidden_client_reason ips r client kind ≡ none
    → IsAllowed ips r client kind
unfolding forbidden_client_reason
IsAllowed-client ips r client kind h = record {
  address = ground (arith, h);
  known = ground (arith, h);
  json = json-content_type r.content_type (ground (arith, h));
  no_referer = referer-empty r.referer (ground (arith, h));
}

client-IsAllowed :
    (ips : List Text) (r : Request) (client : Option Text) (kind : Option UserAgentClient)
    → IsAllowed ips r client kind
    → forbidden_client_reason ips r client kind ≡ none
unfolding forbidden_client_reason
client-IsAllowed ips r client kind a =
    let same = (text_eq_iff json_content_type json_content_type).1 refl in
    ground (arith, a.address, a.known, a.json, a.no_referer, same)

-- A grid request is allowed exactly if the address of the client is not blocked, the client is
-- recognised, the content type is that of JSON, no referer is given or an empty one, and the grid
-- length is one of the five valid ones and at least the minimum of the endpoint.
pub forbidden_reason-none :
    (ips : List Text) (r : Request) (client : Option Text) (kind : Option UserAgentClient)
    (grid_base_length minimum : ℤ)
    → (forbidden_reason ips r client kind grid_base_length minimum ≡ none) ↔ (
        IsAllowed ips r client kind
        × (minimum ≤ℤ grid_base_length)
        × (contains_ℤ valid_grid_base_lengths grid_base_length ≡ true))
unfolding forbidden_reason
forbidden_reason-none ips r client kind g m = (forward, backward)
  where
    grid : Option Reason
    grid =
        if ltb_ℤ g m
        then some (below_minimum g m)
        else if not (contains_ℤ valid_grid_base_lengths g)
        then some (invalid_grid g)
        else none

    forward :
        forbidden_reason ips r client kind g m ≡ none
        → IsAllowed ips r client kind × (m ≤ℤ g) × (contains_ℤ valid_grid_base_lengths g ≡ true)
    forward h = elim (Option-cases (forbidden_client_reason ips r client kind)) [
      | inl e ↦
          let h' : grid ≡ none = rw (e, forbidden_reason) at h in
          (IsAllowed-client ips r client kind e, ground (arith, h'), ground (arith, h'))
      | inr (x, e) ↦
          let bad : Path (Option Reason) (some x) none = rw (e, forbidden_reason) at h in cc
    ]

    backward :
        IsAllowed ips r client kind × (m ≤ℤ g) × (contains_ℤ valid_grid_base_lengths g ≡ true)
        → forbidden_reason ips r client kind g m ≡ none
    backward (a, le, v) =
        rw (client-IsAllowed ips r client kind a, forbidden_reason) (ground (arith, le, v))
