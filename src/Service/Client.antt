-- ===== src/Service/Client.antt =====
-- The client of a request: `UserAgentClient` and the methods of `Request` (src/service.rs), and
-- their agreement with the columns of the usage log (src/service_log.rs).
use bo_srv_rs.Common.{
  ℕ, Bool, true, false, not, ◌||◌, List, [], ◌∷◌, ◌++◌, Option, none, some, ◌>>=◌, ◌≡◌, refl, ◌∙◌,
  ap, arith, ◌==◌, if◌then◌else◌, Option-cases, Bool-cases, inl, inr, ◌⊎◌, ==_iff,
}
use bo_srv_rs.Common.Int.{ℤ, pos, ◌==ℤ◌, ltb_ℤ}
use bo_srv_rs.Common.Text.Case.{eq_ignore_ascii_case}
use bo_srv_rs.Common.Text.Decimal.{Text, codes, parse_i64}
use bo_srv_rs.Common.Text.Fields.{split}
use bo_srv_rs.Common.Text.Order.{text_eq, text_eq_iff}
use bo_srv_rs.Common.Text.Split.{starts_with, first_piece, rsplit_once}
use bo_srv_rs.Common.Text.Trim.{is_empty, trim}
use bo_srv_rs.ServiceLog.Entry.{user_agent_version, client_platform}
use bo_srv_rs.Transport.Headers.{Request}

pub data UserAgentClient : Type 0 where
  android : ℤ → UserAgentClient
  ios : ℤ → UserAgentClient

abbrev pub version_of : UserAgentClient → ℤ
version_of (android v) = v
version_of (ios v) = v

-- `request_client`: the first of the forwarded addresses, or the address of the peer.
unfoldable pub request_client : Request → Option Text
request_client r = elim r.x_forwarded_for [
  | some forward ↦
      if not (is_empty forward) then some (trim (first_piece b',' forward)) else r.client_ip
  | none ↦ r.client_ip
]

abbrev pub not_zero : ℤ → Option ℤ
not_zero v = if v ==ℤ pos 0 then none else some v

-- The `match` on the prefix.
abbrev pub client_of : Text → ℤ → Option UserAgentClient
client_of prefix v =
    if text_eq prefix (codes "bo-android")
    then some (android v)
    else if text_eq prefix (codes "bo-ios")
    then some (ios v)
    else none

unfoldable pub client_in : Option Text → Option UserAgentClient
client_in user_agent = do
  agent ← user_agent
  (prefix, version) ← rsplit_once b'-' (first_piece b' ' agent)
  parsed ← parse_i64 version
  v ← not_zero parsed
  client_of prefix v

unfoldable pub user_agent_client : Request → Option UserAgentClient
unfolding client_in
user_agent_client r = client_in r.user_agent

abbrev pub max_compatible_android_version : ℤ
max_compatible_android_version = pos 177

abbrev pub is_old : Option UserAgentClient → Bool
is_old (some (android v)) = not (ltb_ℤ max_compatible_android_version v)
is_old (some (ios v)) = false
is_old none = false

-- `fix_bad_accept_header`: the request afterwards, and whether the header was removed.
unfoldable pub fix_bad_accept_header : Request → Request × Bool
unfolding user_agent_client
fix_bad_accept_header r =
    if is_old (user_agent_client r)
    then (record r { accept_encoding_removed = true }, true)
    else (r, false)

abbrev pub any_gzip : List Text → Bool
any_gzip [] = false
any_gzip (e ∷ es) = eq_ignore_ascii_case (trim e) (codes "gzip") || any_gzip es

unfoldable pub accepts_gzip : Request → Bool
accepts_gzip r =
    if r.accept_encoding_removed
    then false
    else elim r.accept_encoding [ none ↦ false | some value ↦ any_gzip (split b',' value) ]

rsplit_once-parts : (sep : ℕ) (t a b : Text) → rsplit_once sep t ≡ some (a, b) → t ≡ a ++ (sep ∷ b)
unfolding rsplit_once
rsplit_once-parts sep [] a b h = cc
rsplit_once-parts sep (c ∷ cs) a b h = elim (Option-cases (rsplit_once sep cs)) [
  | inl e ↦ elim (Bool-cases (c == sep)) [
    | inl q ↦
        let same : Path (Option (Text × Text)) (some ([], cs)) (some (a, b)) = rw (e, q) at h in
        let at : c ≡ sep = (==_iff c sep).0 q in cc
    | inr q ↦ let bad : Path (Option (Text × Text)) none (some (a, b)) = rw (e, q) at h in cc
  ]
  | inr ((x, y), e) ↦
      let same : Path (Option (Text × Text)) (some (c ∷ x, y)) (some (a, b)) = rw e at h in
      let parts = rsplit_once-parts sep cs x y e in
      let joined : c ∷ cs ≡ (c ∷ x) ++ (sep ∷ y) = ap (◌∷◌ c) parts in cc
]

-- The two ways to read a version agree on the parts of a user agent.
same_version :
    (prefix : Text) (parsed : Option ℤ)
    → ((parsed >>= λ p. not_zero p >>= λ v. client_of prefix v) >>= λ c. some (version_of c)) ≡ (
        if text_eq prefix (codes "bo-android") || text_eq prefix (codes "bo-ios")
        then (parsed >>= λ v. if v ==ℤ pos 0 then none else some v)
        else none)
same_version prefix none = ground arith
same_version prefix (some p) = ground arith

bind_assoc :
    {A B C : Type 0} (o : Option A) (f : A → Option B) (g : B → Option C)
    → ((o >>= f) >>= g) ≡ (o >>= λ a. f a >>= g)
bind_assoc none f g = refl
bind_assoc (some a) f g = refl

bind_ext :
    {A B : Type 0} (o : Option A) (f g : A → Option B)
    → ((a : A) → f a ≡ g a)
    → (o >>= f) ≡ (o >>= g)
bind_ext none f g h = refl
bind_ext (some a) f g h = h a

-- The version that the usage log prints is the one of the recognised client, and there is none
-- exactly for an unknown client.
pub user_agent_client-version :
    (r : Request)
    → (user_agent_client r >>= λ c. some (version_of c)) ≡ user_agent_version r.user_agent
unfolding user_agent_client client_in user_agent_version
user_agent_client-version r = elim (Option-cases r.user_agent) [
  | inl e ↦ rw e refl
  | inr (agent, e) ↦
      let parts = rsplit_once b'-' (first_piece b' ' agent) in
      rw e (bind_assoc parts _ _ ∙ bind_ext parts _ _ (λ p. same_version p.0 (parse_i64 (p.1))))
]

starts_with-append : (p t : Text) → starts_with p (p ++ t) ≡ true
unfolding starts_with
starts_with-append [] t = refl
starts_with-append (c ∷ p) t = ground (arith, starts_with-append p t)

-- The mark of a platform in the usage log.
abbrev pub platform_of : UserAgentClient → Text
platform_of (android _) = codes "A"
platform_of (ios _) = codes "I"

-- The parts of the user agent of a recognised client.
client_in-parts :
    (agent : Text) (c : UserAgentClient)
    → client_in (some agent) ≡ some c
    → (prefix : Text) × ((version : Text) × ((first_piece b' ' agent ≡ prefix ++ (b'-' ∷ version))
          × (((prefix ≡ codes "bo-android") × (c ≡ android (version_of c)))
              ⊎ ((prefix ≡ codes "bo-ios") × (c ≡ ios (version_of c))))))
unfolding client_in
client_in-parts agent c h = elim (Option-cases (rsplit_once b'-' (first_piece b' ' agent))) [
  | inl e ↦ let bad : none ≡ some c = rw e at h in cc
  | inr ((prefix, version), e) ↦ (
    prefix,
    (
      version,
      (
        rsplit_once-parts b'-' (first_piece b' ' agent) prefix version e,
        kind prefix (parse_i64 version) (rw e at h),
      ),
    ),
  )
]
  where
    kind :
        (prefix : Text) (parsed : Option ℤ)
        → (parsed >>= λ p. not_zero p >>= λ v. client_of prefix v) ≡ some c
        → ((prefix ≡ codes "bo-android") × (c ≡ android (version_of c)))
          ⊎ ((prefix ≡ codes "bo-ios") × (c ≡ ios (version_of c)))
    kind prefix none e = cc
    kind prefix (some p) e =
        ground
          (arith, e, text_eq_iff prefix (codes "bo-android"), text_eq_iff prefix (codes "bo-ios"))

-- A recognised client appears in the usage log with its own platform and never as another one:
-- `A` for Android and `I` for iOS.
pub client_platform-client_in :
    (agent : Text) (c : UserAgentClient)
    → client_in (some agent) ≡ some c
    → client_platform (some agent) (some (version_of c)) ≡ platform_of c
unfolding client_platform starts_with
client_platform-client_in agent c h =
    let (prefix, (version, (parts, kind))) = client_in-parts agent c h in
    elim kind [ inl (p, k) ↦ rw (parts, p, k) refl | inr (p, k) ↦ rw (parts, p, k) refl ]
