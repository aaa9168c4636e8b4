-- ===== src/GatewayEnd/Waiting.antt =====
-- src/gateway_end.rs: a report that waits in the queue: what keeps it there, and when it is sent.
use mathlib.Core.List.{Memᴰ}
use secure_connect_connector.GatewayEnd.{GatewayEndReport, report_ids}
use secure_connect_connector.GatewayEnd.Delivery.{
  AllIn-report_ids, length-filter_list-le, length-filter_list-take, not_in,
}
use secure_connect_connector.Base.{
  Bool, Bool-cases, List, String, [], ap, arith, elem, false, filter_list, inl, inr, length, ltb,
  ltb→lt, refl, string_key, subst, suc, sym, take, true, zero, ℕ, ◌++◌, ◌-◌, ◌<◌, ◌∙◌, ◌∷◌, ◌≡◌,
  ◌≤◌, ◌⊎◌,
}

abbrev pub Reports : Type 0
Reports = List GatewayEndReport

filter_list-append :
    (q : GatewayEndReport → Bool) (xs ys : Reports)
    → filter_list q (xs ++ ys) ≡ filter_list q xs ++ filter_list q ys
unfolding filter_list
filter_list-append q [] ys = refl
filter_list-append q (x ∷ xs) ys = ground (arith, filter_list-append q xs ys)

filter_list-cons :
    (q : GatewayEndReport → Bool) (r : GatewayEndReport) (ys : Reports)
    → q r ≡ true
    → filter_list q (r ∷ ys) ≡ r ∷ filter_list q ys
unfolding filter_list
filter_list-cons q r ys h = rw h refl

-- A report with so few before it is among those taken.
taken :
    (n : ℕ) (before behind : Reports) (r : GatewayEndReport)
    → length before < n
    → Memᴰ r (take n (before ++ r ∷ behind))
taken zero before behind r h = absurd (omega (arith, h))
taken (suc n) [] behind r h = Memᴰ.head refl
taken (suc n) (x ∷ before) behind r h = Memᴰ.tail (taken n before behind r (omega (arith, h)))

-- With more before it, only those are.
taken_before :
    (n : ℕ) (before behind : Reports)
    → n ≤ length before
    → take n (before ++ behind) ≡ take n before
taken_before zero before behind h = refl
taken_before (suc n) [] behind h = absurd (omega (arith, h))
taken_before (suc n) (x ∷ before) behind h =
    ap (λ xs. x ∷ xs) (taken_before n before behind (omega (arith, h)))

absent-filter_list :
    (id : String) (q : GatewayEndReport → Bool) (xs : Reports)
    → elem id (report_ids xs) ≡ false
    → elem id (report_ids (filter_list q xs)) ≡ false
unfolding filter_list elem
absent-filter_list id q [] h = refl
absent-filter_list id q (x ∷ xs) h = ground (arith, absent-filter_list id q xs)

absent-take :
    (id : String) (n : ℕ) (xs : Reports)
    → elem id (report_ids xs) ≡ false
    → elem id (report_ids (take n xs)) ≡ false
unfolding elem
absent-take id zero xs h = refl
absent-take id (suc n) [] h = refl
absent-take id (suc n) (x ∷ xs) h = ground (arith, absent-take id n xs)

-- A report that waits in a list behind at most so many others, none of which has its id.
pub record Waits (r : GatewayEndReport) (most : ℕ) (reports : List GatewayEndReport) : Type 0 where
  pub before : List GatewayEndReport
  pub behind : List GatewayEndReport
  pub place : reports ≡ before ++ r ∷ behind
  pub few : length before ≤ most
  pub alone : elem r.report_id (report_ids before) ≡ false

append_assoc : (xs ys zs : Reports) → (xs ++ ys) ++ zs ≡ xs ++ (ys ++ zs)
append_assoc [] ys zs = refl
append_assoc (x ∷ xs) ys zs = ap (λ rs. x ∷ rs) (append_assoc xs ys zs)

pub Waits-append :
    (r : GatewayEndReport) (most : ℕ) (reports more : Reports)
    → Waits r most reports
    → Waits r most (reports ++ more)
Waits-append r most reports more w = record {
  before = w.before;
  behind = w.behind ++ more;
  place = ap (λ xs. xs ++ more) w.place ∙ append_assoc w.before (r ∷ w.behind) more;
  few = w.few;
  alone = w.alone;
}

pub Waits-filter_list :
    (r : GatewayEndReport) (most : ℕ) (q : GatewayEndReport → Bool) (reports : Reports)
    → q r ≡ true
    → Waits r most reports
    → Waits r most (filter_list q reports)
Waits-filter_list r most q reports h w = record {
  before = filter_list q w.before;
  behind = filter_list q w.behind;
  place =
      ap (filter_list q) w.place
      ∙ filter_list-append q w.before (r ∷ w.behind)
      ∙ ap (λ xs. filter_list q w.before ++ xs) (filter_list-cons q r w.behind h);
  few = omega (arith, w.few, length-filter_list-le q w.before);
  alone = absent-filter_list r.report_id q w.before w.alone;
}

sent_or_Waits_at :
    (r : GatewayEndReport) (n most : ℕ) (before behind : Reports)
    → length before ≤ most
    → elem r.report_id (report_ids before) ≡ false
    → Memᴰ r (take n (before ++ r ∷ behind))
      ⊎ ((n ≤ most)
          × Waits r (most - n) (
              filter_list
                (not_in (report_ids (take n (before ++ r ∷ behind))))
                (before ++ r ∷ behind)))
sent_or_Waits_at r n most before behind few alone = elim (Bool-cases (ltb (length before) n)) [
  | inl h ↦ inl (taken n before behind r (ltb→lt (length before) n h))
  | inr h ↦
      let full : n ≤ length before = ground (arith, h) in
      let ids = report_ids (take n before) in
      let stays : not_in ids r ≡ true = rw (absent-take r.report_id n before alone) refl in
      inr (
        omega (arith, few, full),
        rw (taken_before n before (r ∷ behind) full) (record {
          before = filter_list (not_in ids) before;
          behind = filter_list (not_in ids) behind;
          place =
              filter_list-append (not_in ids) before (r ∷ behind)
              ∙ ap (λ xs. filter_list (not_in ids) before ++ xs)
                  (filter_list-cons (not_in ids) r behind stays);
          few =
              omega (
                arith,
                few,
                length-filter_list-take n ids before (AllIn-report_ids (take n before)),
              );
          alone = absent-filter_list r.report_id (not_in ids) before alone;
        }),
      )
]

-- Of the reports that wait, a report is sent, or those that are sent were before it.
pub sent_or_Waits :
    (r : GatewayEndReport) (n most : ℕ) (reports : Reports)
    → Waits r most reports
    → Memᴰ r (take n reports)
      ⊎ ((n ≤ most)
          × Waits r (most - n) (filter_list (not_in (report_ids (take n reports))) reports))
sent_or_Waits r n most reports w =
    subst
      (λ xs.
        Memᴰ r (take n xs)
        ⊎ ((n ≤ most) × Waits r (most - n) (filter_list (not_in (report_ids (take n xs))) xs)))
      (sym w.place) (sent_or_Waits_at r n most w.before w.behind w.few w.alone)
