-- ===== src/Tests/Names.antt =====
-- The DNS cache's theorems at concrete inputs.
use secure_connect_connector.DnsCache.Refresh.{entry_address, refreshed, resolve-refresh_with}
use secure_connect_connector.Net.{parse_ipv4}
use secure_connect_connector.HashMap.{get}
use secure_connect_connector.Tests.Data.{internal_ip}
use secure_connect_connector.Base.{
  String, String-discrete, [], arith, elem, if◌then◌else◌, none, option_map, refl, some, string_key,
  ℕ_discrete, ◌∷◌, ◌≡◌,
}
use secure_connect_connector.DnsCache.{
  DnsCache, Lookup, outcome_of, refresh_with, resolve, timed_out,
}
use secure_connect_connector.DnsCache.Eviction.{refreshes, resolve-refreshes}

abbrev host : String
host = "db.internal"

abbrev known : DnsCache
known = record {
  resolved = (host, record { address = internal_ip; consecutive_failures = 8 }) ∷ [];
}

abbrev fails : String → Lookup
fails _ = timed_out

resolve-refresh_with_example :
    resolve (refresh_with known (host ∷ []) fails) host ≡ elim (parse_ipv4 host) [
      | some ip ↦ some ip
      | none ↦
          if elem host (host ∷ [])
          then option_map entry_address
              (refreshed (get host known.resolved) (outcome_of (fails host)))
          else none
    ]
resolve-refresh_with_example = resolve-refresh_with known (host ∷ []) fails host

resolve-refreshes_example :
    resolve (refreshes known ((host ∷ [], fails) ∷ (host ∷ [], fails) ∷ [])) host ≡ none
unfolding get elem outcome_of parse_ipv4 String-discrete ℕ_discrete
resolve-refreshes_example =
    resolve-refreshes known host ((host ∷ [], fails) ∷ (host ∷ [], fails) ∷ []) refl
      (refl, refl, (refl, refl, tt)) (omega arith)
