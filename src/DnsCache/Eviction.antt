-- ===== src/DnsCache/Eviction.antt =====
-- How long an address is kept while its lookups fail.
use secure_connect_connector.DnsCache.Refresh.{entry_address, get-refresh_with, refreshed}
use secure_connect_connector.Net.{Ipv4Addr, parse_ipv4}
use secure_connect_connector.HashMap.{get}
use secure_connect_connector.Base.{
  Bool, Bool-cases, List, Option, Option-cases, String, [], arith, elem, false, if◌then◌else◌, inl,
  inr, length, ltb, none, not, option_map, refl, some, string_key, true, ℕ, ◌&&◌, ◌+◌, ◌<◌, ◌∷◌,
  ◌≡◌,
}
use secure_connect_connector.DnsCache.{
  CacheEntry, DnsCache, Lookup, LookupOutcome, failed, is_literal, max_consecutive_failures, new,
  outcome_of, refresh_with, resolve, resolved,
}

-- Refreshes one after the other, each with its hosts and its lookups.
unfoldable pub refreshes : DnsCache → List (List String × (String → Lookup)) → DnsCache
unfolding refresh_with
refreshes cache [] = cache
refreshes cache ((hosts, lookup) ∷ later) = refreshes (refresh_with cache hosts lookup) later

-- Every refresh names the host, and no lookup of it has an answer.
abbrev pub FailsThroughout : String → List (List String × (String → Lookup)) → Type 0
FailsThroughout host [] = Unit {0}
FailsThroughout host ((hosts, lookup) ∷ later) =
    (elem host hosts ≡ true) × (outcome_of (lookup host) ≡ failed) × FailsThroughout host later

-- An entry that has failed fewer times in a row than evict it.
abbrev pub IsCounted : Option CacheEntry → Type 0
IsCounted none = Unit {0}
IsCounted (some entry) = entry.consecutive_failures < max_consecutive_failures

abbrev pub kept_through : Option CacheEntry → ℕ → Option Ipv4Addr
kept_through none failures = none
kept_through (some entry) failures =
    if ltb (entry.consecutive_failures + failures) max_consecutive_failures
    then some entry.address
    else none

get-refreshes :
    (cache : DnsCache) (host : String) (rounds : List (List String × (String → Lookup)))
    → is_literal host ≡ false
    → FailsThroughout host rounds
    → (IsCounted (get host cache.resolved))
    → option_map entry_address (get host (refreshes cache rounds).resolved)
      ≡ kept_through (get host cache.resolved) (length rounds)
unfolding refreshes
get-refreshes cache host [] l f c = elim (Option-cases (get host cache.resolved)) [
  | inl e ↦ ground (arith, e)
  | inr (entry, e) ↦ ground (arith, e)
]
get-refreshes cache host ((hosts, lookup) ∷ later) l f c =
    let next = get-refresh_with cache hosts lookup host in
    let rest = get-refreshes (refresh_with cache hosts lookup) host later l f.2 in
    elim (Option-cases (get host cache.resolved)) [
      | inl e ↦ ground (arith, e, next, rest, f.0, f.1)
      | inr (entry, e) ↦
          elim (Bool-cases (ltb (entry.consecutive_failures + 1) max_consecutive_failures)) [
            | inl kept ↦ ground (arith, e, next, rest, f.0, f.1)
            | inr gone ↦ ground (arith, e, next, rest, f.0, f.1)
          ]
    ]

-- A host that is no literal address, that every refresh names and that no lookup answers resolves
-- to the address that it had exactly while the failures in a row, with those before, are fewer
-- than `max_consecutive_failures`.
pub resolve-refreshes :
    (cache : DnsCache) (host : String) (rounds : List (List String × (String → Lookup)))
    → is_literal host ≡ false
    → FailsThroughout host rounds
    → IsCounted (get host cache.resolved)
    → resolve (refreshes cache rounds) host ≡ kept_through (get host cache.resolved) (length rounds)
unfolding resolve
resolve-refreshes cache host rounds l f c = elim (Option-cases (parse_ipv4 host)) [
  | inl e ↦ rw (e, resolve) (get-refreshes cache host rounds l f c)
  | inr (ip, e) ↦ absurd (ground (arith, e, l))
]

-- What a cache keeps over its refreshes.
pub record IsSound (cache : DnsCache) : Type 0 where
  pub counted : (host : String) → IsCounted (get host cache.resolved)
  pub literals : (host : String) → is_literal host ≡ true → get host cache.resolved ≡ none

IsCounted-refreshed :
    (entry : Option CacheEntry) (outcome : LookupOutcome)
    → IsCounted entry
    → IsCounted (refreshed entry outcome)
IsCounted-refreshed entry (resolved ip) c = omega arith
IsCounted-refreshed none failed c = tt
IsCounted-refreshed (some entry) failed c = ground arith

refresh_with-IsSound :
    (cache : DnsCache) (hosts : List String) (lookup : String → Lookup)
    → IsSound cache
    → IsSound (refresh_with cache hosts lookup)
refresh_with-IsSound cache hosts lookup sound = record {
  counted = λ host. rw (get-refresh_with cache hosts lookup host) (
      counted_if (elem host hosts && not (is_literal host)) _
        (IsCounted-refreshed _ (outcome_of (lookup host)) (sound.counted host)));
  literals = λ host l. ground (arith, get-refresh_with cache hosts lookup host);
}
  where
    counted_if :
        (b : Bool) (entry : Option CacheEntry)
        → IsCounted entry
        → IsCounted (if b then entry else none)
    counted_if true entry c = c
    counted_if false entry c = tt

refreshes-IsSound :
    (cache : DnsCache) (rounds : List (List String × (String → Lookup)))
    → IsSound cache
    → IsSound (refreshes cache rounds)
unfolding refreshes
refreshes-IsSound cache [] sound = sound
refreshes-IsSound cache ((hosts, lookup) ∷ later) sound =
    refreshes-IsSound (refresh_with cache hosts lookup) later
      (refresh_with-IsSound cache hosts lookup sound)

-- After any refreshes of a new cache, every entry has failed fewer than `max_consecutive_failures`
-- times in a row, and no literal address has an entry.
pub refreshes-new-IsSound :
    (rounds : List (List String × (String → Lookup))) → IsSound (refreshes new rounds)
unfolding new get
refreshes-new-IsSound rounds =
    refreshes-IsSound new rounds (record { counted = λ _. tt; literals = λ _ _. refl })
