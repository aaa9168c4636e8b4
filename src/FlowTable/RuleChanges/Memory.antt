-- ===== src/FlowTable/RuleChanges/Memory.antt =====
-- The memory of ended flows stays within its cap, and lasts as long as packets keep coming.
use secure_connect_connector.Net.{duration_since}
use secure_connect_connector.HashMap.Laws.{
  IsUnique, insert-IsUnique, remove-IsUnique, retain-IsUnique,
}
use secure_connect_connector.HashMap.{HashMap, contains_key, get, remove, retain}
use secure_connect_connector.Base.{
  Bool-cases, List, Option-cases, [], ap, arith, if◌then◌else◌, inl, inr, leb, leb→le, length, none,
  refl, some, true, ℕ, ◌<◌, ◌∷◌, ◌≡◌, ◌≤◌,
}
use secure_connect_connector.HashMap.Sizes.{
  length-insert-le, length-insert_present, length-remove-le, length-remove-lt, length-retain-le,
}
use secure_connect_connector.FlowTable.Types.{
  FlowKey, flow_key, max_rule_ended_flows, rule_ended_flow_memory,
}
use secure_connect_connector.FlowTable.RuleChanges.{
  check_ended, oldest_seen, remember_all, remember_rule_ended,
}

pub record IsRemembered (ended : HashMap FlowKey ℕ) : Type 0 where
  pub unique : IsUnique ended
  pub capped : length ended ≤ max_rule_ended_flows

oldest_seen-none : (m : HashMap FlowKey ℕ) → oldest_seen m ≡ none → m ≡ []
unfolding oldest_seen
oldest_seen-none [] e = refl
oldest_seen-none ((key, seen) ∷ m) e = absurd (ground arith)

oldest_seen_held :
    (m : HashMap FlowKey ℕ) (key : FlowKey) (seen : ℕ)
    → oldest_seen m ≡ some (key, seen)
    → contains_key key m ≡ true
unfolding oldest_seen get
oldest_seen_held [] key seen e = cc
oldest_seen_held ((k, s) ∷ m) key seen e = elim (Option-cases (oldest_seen m)) [
  | inl f ↦ ground arith
  | inr ((other, least), f) ↦ ground (arith, oldest_seen_held m other least f)
]

make_room : HashMap FlowKey ℕ → HashMap FlowKey ℕ
make_room recent =
    if leb max_rule_ended_flows (length recent)
    then (elim (oldest_seen recent) [ none ↦ recent | some (oldest, _) ↦ remove oldest recent ])
    else recent

make_room-lt :
    (recent : HashMap FlowKey ℕ)
    → length recent ≤ max_rule_ended_flows
    → (length (make_room recent) < max_rule_ended_flows)
      × (IsUnique recent → IsUnique (make_room recent))
unfolding make_room
make_room-lt recent h = elim (Bool-cases (leb max_rule_ended_flows (length recent))) [
  | inr room ↦ rw room (ground arith, λ u. u)
  | inl full ↦ rw full (elim (Option-cases (oldest_seen recent)) [
    | inl none_left ↦
        absurd (omega (arith, leb→le _ _ full, ap length (oldest_seen-none recent none_left)))
    | inr ((oldest, s), f) ↦ rw f (
      omega (arith, length-remove-lt oldest recent (oldest_seen_held recent oldest s f)),
      remove-IsUnique oldest recent,
    )
  ])
]

remember_rule_ended-IsRemembered :
    (ended : HashMap FlowKey ℕ) (key : FlowKey) (now : ℕ)
    → IsRemembered ended
    → IsRemembered (remember_rule_ended ended key now)
unfolding remember_rule_ended make_room
remember_rule_ended-IsRemembered ended key now v =
    let recent =
      retain (λ (_ : FlowKey) seen. leb (duration_since now seen) rule_ended_flow_memory) ended in
    let room = make_room-lt recent (
      omega (
        arith,
        v.capped,
        length-retain-le
            (λ (_ : FlowKey) seen. leb (duration_since now seen) rule_ended_flow_memory) ended,
      )) in
    record {
      unique =
          insert-IsUnique key now (make_room recent) (room.1 (retain-IsUnique _ ended v.unique));
      capped = omega (arith, room.0, length-insert-le key now (make_room recent));
    }

pub remember_all-IsRemembered :
    (ended : HashMap FlowKey ℕ) (keys : List FlowKey) (now : ℕ)
    → IsRemembered ended
    → IsRemembered (remember_all ended keys now)
unfolding remember_all
remember_all-IsRemembered ended [] now v = v
remember_all-IsRemembered ended (key ∷ keys) now v =
    remember_all-IsRemembered (remember_rule_ended ended key now) keys now
      (remember_rule_ended-IsRemembered ended key now v)

pub check_ended-IsRemembered :
    (ended : HashMap FlowKey ℕ) (key : FlowKey) (now : ℕ)
    → IsRemembered ended
    → IsRemembered (check_ended ended key now).0
unfolding check_ended
check_ended-IsRemembered ended key now v = elim (Option-cases (get key ended)) [
  | inl e ↦ rw (e, check_ended) v
  | inr (seen, e) ↦
      rw (e, check_ended)
        (elim (Bool-cases (leb (duration_since now seen) rule_ended_flow_memory)) [
          | inl hit ↦ rw hit (record {
            unique = insert-IsUnique key now ended v.unique;
            capped = omega (arith, v.capped, length-insert_present key now ended (rw e));
          })
          | inr miss ↦ rw miss (record {
            unique = remove-IsUnique key ended v.unique;
            capped = omega (arith, v.capped, length-remove-le key ended);
          })
        ])
]

pub forget_one :
    (key : FlowKey) (ended : HashMap FlowKey ℕ)
    → IsRemembered ended
    → IsRemembered (remove key ended)
forget_one key ended v = record {
  unique = remove-IsUnique key ended v.unique;
  capped = omega (arith, v.capped, length-remove-le key ended);
}
