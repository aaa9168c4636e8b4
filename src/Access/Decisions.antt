-- ===== src/Access/Decisions.antt =====
-- When access is granted.
use secure_connect_connector.Dto.{Entitlement, PolicyBundle, PortRule, rules}
use secure_connect_connector.Policy.{PolicyState, PolicyStore}
use secure_connect_connector.Access.{
  allowed, decide_access_at, decide_by_bundle, decide_by_entitlement, decide_by_state, find_bundle,
  find_entitlement, is_key,
}
use mathlib.Core.List.{Memᴰ}
use secure_connect_connector.Base.{
  Bool-cases, List, Option, Option-cases, String, [], ap, arith, inl, inr, leb, none, refl, some,
  string_key, true, ℕ, ◌<◌, ◌==◌, ◌∙◌, ◌∷◌, ◌≡◌,
}

pub find_bundle_found :
    (g : String) (bundles : List PolicyBundle) (bundle : PolicyBundle)
    → find_bundle g bundles ≡ some bundle
    → Memᴰ bundle bundles × (bundle.gateway_id ≡ g)
unfolding find_bundle
find_bundle_found g [] bundle e = absurd (ground arith)
find_bundle_found g (b ∷ bs) bundle e = elim (Bool-cases (b.gateway_id == g)) [
  | inl h ↦ let same : bundle ≡ b = ground arith in (Memᴰ.head same, ground arith)
  | inr h ↦ let rest = find_bundle_found g bs bundle (ground arith) in (Memᴰ.tail rest.0, rest.1)
]

find_entitlement_found :
    (k : String) (list : List Entitlement) (entitlement : Entitlement)
    → find_entitlement k list ≡ some entitlement
    → Memᴰ entitlement list × (entitlement.device_public_key ≡ some k)
unfolding find_entitlement
find_entitlement_found k [] entitlement e = absurd (ground arith)
find_entitlement_found k (b ∷ bs) entitlement e = elim (Bool-cases (is_key b.device_public_key k)) [
  | inl h ↦
      let same : entitlement ≡ b = ground arith in
      (
        Memᴰ.head same,
        ap (λ (x : Entitlement). x.device_public_key) same ∙ is_key_some b.device_public_key k h,
      )
  | inr h ↦
      let rest = find_entitlement_found k bs entitlement (ground arith) in
      (Memᴰ.tail rest.0, rest.1)
]
  where
    is_key_some : (o : Option String) (k : String) → is_key o k ≡ true → o ≡ some k
    is_key_some none k h = cc
    is_key_some (some j) k h = ground arith

-- An entitlement of a policy that grants a device access to a gateway, for a user and with rules.
pub record IsEntitled (parse_from_rfc3339 : String → Option ℕ) (store : PolicyStore)
    (gateway_id device_public_key : String) (now : ℕ) (user_id : String) (opened : List PortRule)
    : Type 0 where
  pub state : PolicyState
  pub expires_at : ℕ
  pub bundle : PolicyBundle
  pub entitlement : Entitlement
  pub applied : store.state ≡ some state
  pub readable : parse_from_rfc3339 state.expires_at ≡ some expires_at
  pub in_force : now < expires_at
  pub served : Memᴰ bundle state.policy_bundles
  pub gateway : bundle.gateway_id ≡ gateway_id
  pub listed : Memᴰ entitlement bundle.entitlement_list
  pub device : entitlement.device_public_key ≡ some device_public_key
  pub user : entitlement.user_id ≡ user_id
  pub rules_of : rules bundle ≡ opened

decide_by_entitlement_allowed :
    (bundle : PolicyBundle) (found : Option Entitlement) (user_id : String) (opened : List PortRule)
    → decide_by_entitlement bundle found ≡ allowed user_id opened
    → (entitlement : Entitlement) × (found ≡ some entitlement)
      × (entitlement.user_id ≡ user_id)
      × (rules bundle ≡ opened)
unfolding decide_by_entitlement
decide_by_entitlement_allowed bundle none user_id opened e = absurd (ground arith)
decide_by_entitlement_allowed bundle (some entitlement) user_id opened e =
    (entitlement, refl, ground arith, ground arith)

decide_by_bundle_allowed :
    (found : Option PolicyBundle) (k user_id : String) (opened : List PortRule)
    → decide_by_bundle found k ≡ allowed user_id opened
    → (bundle : PolicyBundle) × (found ≡ some bundle)
      × (decide_by_entitlement bundle (find_entitlement k bundle.entitlement_list)
          ≡ allowed user_id opened)
unfolding decide_by_bundle
decide_by_bundle_allowed none k user_id opened e = absurd (ground arith)
decide_by_bundle_allowed (some bundle) k user_id opened e = (bundle, refl, e)

decide_access_at_state :
    (p : String → Option ℕ) (store : PolicyStore) (g k : String) (now : ℕ) (user_id : String)
    (opened : List PortRule)
    → decide_access_at p store g k now ≡ some (allowed user_id opened)
    → (state : PolicyState) × (expires_at : ℕ) × (store.state ≡ some state)
      × (p state.expires_at ≡ some expires_at)
      × (now < expires_at)
      × (decide_by_bundle (find_bundle g state.policy_bundles) k ≡ allowed user_id opened)
unfolding decide_access_at decide_by_state
decide_access_at_state p store g k now user_id opened e = elim (Option-cases store.state) [
  | inl f ↦ absurd (ground arith)
  | inr (state, f) ↦ elim (Option-cases (p state.expires_at)) [
    | inl h ↦ absurd (ground arith)
    | inr (expires_at, h) ↦ elim (Bool-cases (leb expires_at now)) [
      | inl late ↦ absurd (ground arith)
      | inr live ↦ (state, expires_at, f, h, ground arith, ground arith)
    ]
  ]
]

-- Access is only ever allowed by an entitlement: a policy is applied and still in force, it has a
-- bundle of the gateway, whose entitlement list names the device's key, and both the user and the
-- rules of the decision are those of the entitlement and the bundle.
pub decide_access_at_allowed :
    (p : String → Option ℕ) (store : PolicyStore) (g k : String) (now : ℕ) (user_id : String)
    (opened : List PortRule)
    → decide_access_at p store g k now ≡ some (allowed user_id opened)
    → IsEntitled p store g k now user_id opened
decide_access_at_allowed p store g k now user_id opened e =
    let (state, expires_at, f, h, live, d) =
      decide_access_at_state p store g k now user_id opened e in
    let (bundle, found, d2) =
      decide_by_bundle_allowed (find_bundle g state.policy_bundles) k user_id opened d in
    let (entitlement, listed, user, opens) =
      decide_by_entitlement_allowed bundle (find_entitlement k bundle.entitlement_list) user_id
        opened d2 in
    let b = find_bundle_found g state.policy_bundles bundle found in
    let l = find_entitlement_found k bundle.entitlement_list entitlement listed in
    record {
      state = state;
      expires_at = expires_at;
      bundle = bundle;
      entitlement = entitlement;
      applied = f;
      readable = h;
      in_force = live;
      served = b.0;
      gateway = b.1;
      listed = l.0;
      device = l.1;
      user = user;
      rules_of = opens;
    }

find_entitlement_listed :
    (k : String) (list : List Entitlement) (entitlement : Entitlement)
    → Memᴰ entitlement list
    → entitlement.device_public_key ≡ some k
    → (found : Entitlement) × (find_entitlement k list ≡ some found)
unfolding find_entitlement
find_entitlement_listed k [] entitlement m d = elim m [ ]
find_entitlement_listed k (b ∷ bs) entitlement (Memᴰ.head same) d = (b, ground arith)
find_entitlement_listed k (b ∷ bs) entitlement (Memᴰ.tail m) d =
    elim (Bool-cases (is_key b.device_public_key k)) [
      | inl h ↦ (b, ground arith)
      | inr h ↦
          let (found, e) = find_entitlement_listed k bs entitlement m d in (found, ground arith)
    ]

-- Under a policy in force, a device that the gateway's bundle entitles is allowed, with that
-- bundle's rules.
pub decide_access_at_entitled :
    (p : String → Option ℕ) (state : PolicyState) (g k : String) (now expires_at : ℕ)
    (bundle : PolicyBundle) (entitlement : Entitlement)
    → p state.expires_at ≡ some expires_at
    → now < expires_at
    → find_bundle g state.policy_bundles ≡ some bundle
    → Memᴰ entitlement bundle.entitlement_list
    → entitlement.device_public_key ≡ some k
    → (user_id : String) × (decide_access_at p (record { state = some state }) g k now
        ≡ some (allowed user_id (rules bundle)))
unfolding decide_access_at decide_by_state decide_by_bundle decide_by_entitlement
decide_access_at_entitled p state g k now expires_at bundle entitlement h live found m d =
    let (first, e) = find_entitlement_listed k bundle.entitlement_list entitlement m d in
    (first.user_id, ground (arith, h, live, found, e))
