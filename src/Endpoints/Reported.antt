-- ===== src/Endpoints/Reported.antt =====
-- src/main.rs: the hosts that a heartbeat reports, and the audit entries of its bundles.
use secure_connect_connector.Access.{find_bundle}
use Prim.Native.String.{String}
use mathlib.Core.List.{Perm}
use mathlib.Core.List.Perm as Perm
use mathlib.Core.HLevel.{hedberg}
use secure_connect_connector.DnsCache.{DnsCache, resolve}
use secure_connect_connector.Dto.{Entitlement, PolicyBundle, PortRule, rules}
use secure_connect_connector.Endpoints.{
  bundle_audit_events, collect_endpoint_hosts, entitlement_list_sha256, is_unchanged, port_rule_key,
  received_event, same_configuration, same_rules, unresolved_hosts_in,
}
use secure_connect_connector.Sorting.{dedup, sort}
use secure_connect_connector.Sorting.Laws.{
  dedup-IsDistinct, elem-dedup, elem-sort, sort-IsSorted, sort-eq_of_perm,
}
use secure_connect_connector.Sorting.Orders.{pair_order, string_order}
use secure_connect_connector.Base.{
  Bool, IsDistinct, Key, List, Option, String-discrete, [], ap, arith, elem, elem-append, false,
  filter_list, is_some, map, nat_key, not, refl, some, string_key, subst, sym, true, ◌&&◌, ◌++◌,
  ◌==◌, ◌∙◌, ◌∷◌, ◌≡◌,
}

elem-filter_list :
    (p : String → Bool) (k : String) (xs : List String)
    → elem k (filter_list p xs) ≡ (elem k xs && p k)
unfolding filter_list elem
elem-filter_list p k [] = refl
elem-filter_list p k (x ∷ xs) = ground (arith, elem-filter_list p k xs)

IsDistinct-filter_list :
    (p : String → Bool) (xs : List String) → IsDistinct xs → IsDistinct (filter_list p xs)
unfolding filter_list
IsDistinct-filter_list p [] d = tt
IsDistinct-filter_list p (x ∷ xs) d =
    ground (arith, elem-filter_list p x xs, IsDistinct-filter_list p xs)

-- The hosts that a heartbeat reports as unresolved are exactly the internal hosts of the bundles'
-- rules that the cache gives no address for, each once.
pub unresolved_hosts_in_lem :
    (bundles : List PolicyBundle) (dns_cache : DnsCache)
    → ((host : String)
        → elem host (unresolved_hosts_in bundles dns_cache)
          ≡ (elem host (collect_endpoint_hosts bundles) && not (is_some (resolve dns_cache host))))
      × IsDistinct (unresolved_hosts_in bundles dns_cache)
unfolding unresolved_hosts_in
unresolved_hosts_in_lem bundles dns_cache =
    let hosts = collect_endpoint_hosts bundles in
    (
      λ host.
          elem-filter_list (λ h. not (is_some (resolve dns_cache h))) host (dedup (sort hosts))
          ∙ ap (λ b. b && not (is_some (resolve dns_cache host)))
              (elem-dedup host (sort hosts) ∙ elem-sort host hosts),
      IsDistinct-filter_list _ (dedup (sort hosts))
          (dedup-IsDistinct (sort hosts) (sort-IsSorted hosts)),
    )

pairs-set : IsSet (List (String × Option String))
pairs-set = hlevel (hedberg String-discrete)

-- The digest of an entitlement list does not depend on the order in which the list was sent.
pub entitlement_list_sha256_perm :
    (digest : List (String × Option String) → String) {xs ys : List Entitlement}
    → Perm xs ys
    → entitlement_list_sha256 digest xs ≡ entitlement_list_sha256 digest ys
unfolding entitlement_list_sha256
entitlement_list_sha256_perm digest p = ap digest (sort-eq_of_perm pairs-set (Perm.map _ p))

abbrev pub gateway_ids : List PolicyBundle → List String
gateway_ids bundles = map (λ (bundle : PolicyBundle). bundle.gateway_id) bundles

key_refl {ℓ} : {K : Type ℓ} ⦃key : Key K⦄ (k : K) → (k == k) ≡ true
key_refl ⦃key⦄ k =
    elim (key.discrete k k) as (λ d. (elim d [ yes _ ↦ true | no _ ↦ false ]) ≡ true) [
      | yes e ↦ refl
      | no ne ↦ absurd (ne refl)
    ]

same_rules_refl : (rs : List PortRule) → same_rules rs rs ≡ true
unfolding same_rules
same_rules_refl [] = refl
same_rules_refl (r ∷ rs) = rw (key_refl r) (same_rules_refl rs)

same_configuration_refl : (bundle : PolicyBundle) → same_configuration bundle bundle ≡ true
unfolding same_configuration
same_configuration_refl bundle =
    rw (key_refl bundle.location) (rw (key_refl bundle.hostname) (same_rules_refl (rules bundle)))

find_bundle_own :
    (bundle : PolicyBundle) (before after : List PolicyBundle)
    → elem bundle.gateway_id (gateway_ids before) ≡ false
    → find_bundle bundle.gateway_id (before ++ bundle ∷ after) ≡ some bundle
unfolding find_bundle elem
find_bundle_own bundle [] after h = rw (key_refl bundle.gateway_id) refl
find_bundle_own bundle (other ∷ before) after h =
    ground (arith, find_bundle_own bundle before after)

is_unchanged_own :
    (bundle : PolicyBundle) (before after : List PolicyBundle)
    → elem bundle.gateway_id (gateway_ids before) ≡ false
    → is_unchanged (some (before ++ bundle ∷ after)) bundle ≡ true
unfolding is_unchanged
is_unchanged_own bundle before after h =
    rw (find_bundle_own bundle before after h) (same_configuration_refl bundle)

gateway_ids-append :
    (xs ys : List PolicyBundle) → gateway_ids (xs ++ ys) ≡ gateway_ids xs ++ gateway_ids ys
gateway_ids-append [] ys = refl
gateway_ids-append (x ∷ xs) ys = ap (λ ids. x.gateway_id ∷ ids) (gateway_ids-append xs ys)

append-cons {ℓ} :
    {A : Type ℓ} (xs : List A) (y : A) (ys : List A) → xs ++ y ∷ ys ≡ (xs ++ y ∷ []) ++ ys
append-cons [] y ys = refl
append-cons (x ∷ xs) y ys = ap (λ zs. x ∷ zs) (append-cons xs y ys)

-- Each gateway of the second list is none of the first list's, and stands once.
abbrev Follows : List PolicyBundle → List PolicyBundle → Type 0
Follows before [] = Unit
Follows before (bundle ∷ after) =
    (elem bundle.gateway_id (gateway_ids before) ≡ false) × Follows (before ++ bundle ∷ []) after

events_of_rest :
    (digest : List (String × Option String) → String) (before after : List PolicyBundle)
    → Follows before after
    → bundle_audit_events digest (some (before ++ after)) after ≡ map (received_event digest) after
unfolding bundle_audit_events
events_of_rest digest before [] f = refl
events_of_rest digest before (bundle ∷ after) f =
    let rest =
      subst (λ all. bundle_audit_events digest (some all) after ≡ map (received_event digest) after)
        (sym (append-cons before bundle after))
        (events_of_rest digest (before ++ bundle ∷ []) after f.1) in
    rw (is_unchanged_own bundle before after f.0)
      (ap (λ events. received_event digest bundle ∷ events) rest)

not_before :
    (id : String) (before after : List PolicyBundle)
    → IsDistinct (gateway_ids (before ++ after))
    → elem id (gateway_ids after) ≡ true
    → elem id (gateway_ids before) ≡ false
unfolding elem
not_before id [] after d h = refl
not_before id (bundle ∷ before) after d h = ground (
  arith,
  not_before id before after d.1,
  gateway_ids-append before after,
  elem-append bundle.gateway_id (gateway_ids before) (gateway_ids after),
  elem-append id (gateway_ids before) (gateway_ids after),
)

Follows-IsDistinct :
    (before after : List PolicyBundle)
    → IsDistinct (gateway_ids (before ++ after))
    → Follows before after
unfolding elem
Follows-IsDistinct before [] d = tt
Follows-IsDistinct before (bundle ∷ after) d = (
  not_before bundle.gateway_id before (bundle ∷ after) d (rw (key_refl bundle.gateway_id) refl),
  Follows-IsDistinct (before ++ bundle ∷ []) after (rw (append-cons before bundle after) at d),
)

-- A heartbeat whose bundles are those in force, no gateway among them twice, writes one entry for
-- each gateway, that its entitlement list was received, in the bundles' order, and none that a
-- bundle was applied.
pub bundle_audit_events_same :
    (digest : List (String × Option String) → String) (bundles : List PolicyBundle)
    → IsDistinct (gateway_ids bundles)
    → bundle_audit_events digest (some bundles) bundles ≡ map (received_event digest) bundles
bundle_audit_events_same digest bundles d =
    events_of_rest digest [] bundles (Follows-IsDistinct [] bundles d)
