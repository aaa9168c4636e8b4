-- ===== src/DnsCache/Refresh.antt =====
-- What one refresh does to the address of a host.
use secure_connect_connector.DnsCache.{
  CacheEntry, DnsCache, Lookup, LookupOutcome, failed, is_literal, max_consecutive_failures,
  outcome_of, record_outcome, record_outcomes, refresh_with, resolve, resolved, wanted_hosts,
}
use secure_connect_connector.Net.{Ipv4Addr, parse_ipv4}
use secure_connect_connector.HashMap.Laws.{
  IsUnique, get-insert, get-remove, get-retain_keys, insert-IsUnique,
}
use secure_connect_connector.HashMap.{HashMap, HashSet, contains_key, get}
use secure_connect_connector.Base.{
  List, Option, Option-cases, String, [], arith, elem, if◌then◌else◌, inl, inr, ltb, none, not,
  option_map, refl, some, string_key, ◌&&◌, ◌+◌, ◌==◌, ◌∷◌, ◌≡◌,
}

-- What a refresh makes of a wanted host's entry.
abbrev pub refreshed : Option CacheEntry → LookupOutcome → Option CacheEntry
refreshed entry (resolved ip) = some (record { address = ip; consecutive_failures = 0 })
refreshed none failed = none
refreshed (some entry) failed =
    if ltb (entry.consecutive_failures + 1) max_consecutive_failures
    then some
        (record { address = entry.address; consecutive_failures = entry.consecutive_failures + 1 })
    else none

get-record_outcome :
    (cached : HashMap String CacheEntry) (host : String) (outcome : LookupOutcome) (k : String)
    → get k (record_outcome cached host outcome)
      ≡ (if host == k then refreshed (get k cached) outcome else get k cached)
unfolding record_outcome
get-record_outcome cached host (resolved ip) k = elim (Option-cases (get host cached)) [
  | inl e ↦
      rw (e, record_outcome)
        (ground
          (arith, get-insert host k (record { address = ip; consecutive_failures = 0 }) cached))
  | inr (entry, e) ↦
      rw (e, record_outcome)
        (ground (
          arith,
          get-insert host k (record { address = ip; consecutive_failures = 0 }) cached,
          get-insert host k (record entry { consecutive_failures = 0 }) cached,
        ))
]
get-record_outcome cached host failed k = elim (Option-cases (get host cached)) [
  | inl e ↦ rw (e, record_outcome) (ground (arith, e))
  | inr (entry, e) ↦
      rw (e, record_outcome)
        (ground (
          arith,
          e,
          get-remove host k cached,
          get-insert host k (record entry { consecutive_failures = entry.consecutive_failures + 1 })
              cached,
        ))
]

get-record_outcomes :
    (lookup : String → Lookup) (wanted : HashSet String) (cached : HashMap String CacheEntry)
    (k : String)
    → IsUnique wanted
    → get k (record_outcomes lookup wanted cached) ≡ (
        if contains_key k wanted
        then refreshed (get k cached) (outcome_of (lookup k))
        else get k cached)
unfolding record_outcomes get
get-record_outcomes lookup [] cached k u = refl
get-record_outcomes lookup ((host, v) ∷ hosts) cached k u = ground (
  arith,
  get-record_outcomes lookup hosts (record_outcome cached host (outcome_of (lookup host))) k u.1,
  get-record_outcome cached host (outcome_of (lookup host)) k,
  u.0,
)

get-wanted_hosts :
    (hosts : List String) (k : String)
    → contains_key k (wanted_hosts hosts) ≡ (elem k hosts && not (is_literal k))
unfolding wanted_hosts elem get
get-wanted_hosts [] k = refl
get-wanted_hosts (host ∷ hosts) k =
    ground (arith, get-wanted_hosts hosts k, get-insert host k tt (wanted_hosts hosts))

wanted_hosts-IsUnique : (hosts : List String) → IsUnique (wanted_hosts hosts)
unfolding wanted_hosts
wanted_hosts-IsUnique [] = tt
wanted_hosts-IsUnique (host ∷ hosts) = ground (
  arith,
  wanted_hosts-IsUnique hosts,
  insert-IsUnique host tt (wanted_hosts hosts) (wanted_hosts-IsUnique hosts),
)

-- After a refresh with a list of hosts, a host that is in it and no literal address has what its
-- lookup's outcome makes of its entry, and every other host has none.
pub get-refresh_with :
    (cache : DnsCache) (hosts : List String) (lookup : String → Lookup) (host : String)
    → get host (refresh_with cache hosts lookup).resolved ≡ (
        if elem host hosts && not (is_literal host)
        then refreshed (get host cache.resolved) (outcome_of (lookup host))
        else none)
unfolding refresh_with
get-refresh_with cache hosts lookup host =
    let wanted = wanted_hosts hosts in
    ground (
      arith,
      get-retain_keys (λ k. contains_key k wanted) host
          (record_outcomes lookup wanted cache.resolved),
      get-record_outcomes lookup wanted cache.resolved host (wanted_hosts-IsUnique hosts),
      get-wanted_hosts hosts host,
    )

abbrev pub entry_address : CacheEntry → Ipv4Addr
entry_address entry = entry.address

-- A literal address resolves to itself, whatever was refreshed; a host that was looked up with an
-- answer resolves to its first address, one whose lookup failed to no other address than before,
-- and a host that the refresh did not name to nothing.
pub resolve-refresh_with :
    (cache : DnsCache) (hosts : List String) (lookup : String → Lookup) (host : String)
    → resolve (refresh_with cache hosts lookup) host ≡ elim (parse_ipv4 host) [
      | some ip ↦ some ip
      | none ↦
          if elem host hosts
          then option_map entry_address
              (refreshed (get host cache.resolved) (outcome_of (lookup host)))
          else none
    ]
unfolding resolve
resolve-refresh_with cache hosts lookup host = elim (Option-cases (parse_ipv4 host)) [
  | inl e ↦ rw (e, resolve, get-refresh_with cache hosts lookup host) (ground arith)
  | inr (ip, e) ↦ rw (e, resolve) refl
]
