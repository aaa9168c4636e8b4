-- ===== src/DnsCache.antt =====
-- src/dns_cache.rs: the addresses of the gateways' endpoint hosts. The lookup is the resolver's
-- answer for each host of one refresh, with its timeout; the logging is left out.
pub mod Refresh
pub mod Eviction
use secure_connect_connector.Base.{
  Bool, List, Option, String, [], if◌then◌else◌, is_some, leb, none, option_map, some, string_key,
  ℕ, ◌+◌, ◌==◌, ◌∷◌,
}
use secure_connect_connector.HashMap.{HashMap, HashSet, contains_key, get, insert, remove, retain}
use secure_connect_connector.Net.{Ipv4Addr, ipv4_key, parse_ipv4}

abbrev pub max_consecutive_failures : ℕ
max_consecutive_failures = 10

pub record CacheEntry : Type 0 where
  pub address : Ipv4Addr
  pub consecutive_failures : ℕ

pub record DnsCache : Type 0 where
  pub resolved : HashMap String CacheEntry

unfoldable pub new : DnsCache
new = record { resolved = [] }

-- How one lookup ends: an answer, an error, or the time limit.
pub data Lookup : Type 0 where
  answered : List Ipv4Addr → Lookup
  errored : Lookup
  timed_out : Lookup

pub data LookupOutcome : Type 0 where
  resolved : Ipv4Addr → LookupOutcome
  failed : LookupOutcome

-- `addrs.into_iter().next()`, and every other ending a failure.
unfoldable pub outcome_of : Lookup → LookupOutcome
outcome_of (answered (ip ∷ _)) = resolved ip
outcome_of (answered []) = failed
outcome_of errored = failed
outcome_of timed_out = failed

abbrev pub is_literal : String → Bool
is_literal host = is_some (parse_ipv4 host)

unfoldable pub resolve : DnsCache → String → Option Ipv4Addr
resolve cache host = elim (parse_ipv4 host) [
  | some ip ↦ some ip
  | none ↦ option_map (λ (entry : CacheEntry). entry.address) (get host cache.resolved)
]

-- The set of the hosts that are no literal addresses.
unfoldable pub wanted_hosts : List String → HashSet String
wanted_hosts [] = []
wanted_hosts (host ∷ hosts) =
    let rest = wanted_hosts hosts in if is_literal host then rest else insert host tt rest

-- One pass of the loop over the outcomes.
unfoldable pub record_outcome :
    HashMap String CacheEntry → String → LookupOutcome → HashMap String CacheEntry
record_outcome cached host (resolved ip) = elim (get host cached) [
  | some entry ↦
      if entry.address == ip
      then insert host (record entry { consecutive_failures = 0 }) cached
      else insert host (record { address = ip; consecutive_failures = 0 }) cached
  | none ↦ insert host (record { address = ip; consecutive_failures = 0 }) cached
]
record_outcome cached host failed = elim (get host cached) [
  | some entry ↦
      let failures = entry.consecutive_failures + 1 in
      if leb max_consecutive_failures failures
      then remove host cached
      else insert host (record entry { consecutive_failures = failures }) cached
  | none ↦ cached
]

unfoldable pub record_outcomes :
    (String → Lookup) → HashSet String → HashMap String CacheEntry → HashMap String CacheEntry
unfolding record_outcome outcome_of
record_outcomes lookup [] cached = cached
record_outcomes lookup ((host, _) ∷ hosts) cached =
    record_outcomes lookup hosts (record_outcome cached host (outcome_of (lookup host)))

-- `refresh_with`
unfoldable pub refresh_with : DnsCache → List String → (String → Lookup) → DnsCache
unfolding wanted_hosts record_outcomes
refresh_with cache hosts lookup =
    let wanted = wanted_hosts hosts in
    record {
      resolved =
          retain (λ host _. contains_key host wanted)
            (record_outcomes lookup wanted cache.resolved);
    }
