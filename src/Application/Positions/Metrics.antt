-- ===== src/Application/Positions/Metrics.antt =====
-- The exposures as sums of open balances (ledger/src/core/application/dtos/positionUtils.ts).
use ledger_system.Prelude.{
  ℕ, ◌+◌, ◌≤◌, String, ◌≡◌, refl, ◌∙◌, Bool, true, false, not, ◌&&◌, Option, none, some, List, [],
  ◌∷◌, ◌==◌, string_eq, nat_eq, if◌then◌else◌, arith,
}
use ledger_system.Domain.Entities.{Instant}
use ledger_system.Application.Positions.{
  PositionAggregate, CapitalMetrics, DueState, no_metrics, is_payable, is_at_risk, due_state_of,
  open_balance_units_of, metrics_from, compute_capital_metrics,
}

-- The open balance, where it is known.
abbrev pub known : Option ℕ → ℕ
known none = 0
known (some b) = b

-- The positions of the currency that no reversal voids.
abbrev pub counted : String → PositionAggregate → Bool
counted currency agg = agg.currency == currency && not agg.has_reversal

abbrev pub balance : PositionAggregate → ℕ
balance agg = known (open_balance_units_of agg)

-- The sum of the known open balances of the positions that pass a test.
abbrev pub sum_open : (PositionAggregate → Bool) → List PositionAggregate → ℕ
sum_open p [] = 0
sum_open p (agg ∷ aggs) = (if p agg then balance agg else 0) + sum_open p aggs

abbrev pub is_due : DueState → DueState → Bool
is_due DueState.overdue DueState.overdue = true
is_due DueState.upcoming DueState.upcoming = true
is_due DueState.unknown DueState.unknown = true
is_due _ _ = false

abbrev pub falls_due : DueState → String → Instant → PositionAggregate → Bool
falls_due s currency as_of agg =
    counted currency agg && is_payable agg && is_due (due_state_of agg as_of) s

-- A position at risk: one that nothing has closed yet, open since before the cutoff.
abbrev pub at_risk : String → Instant → PositionAggregate → Bool
at_risk currency cutoff agg =
    counted currency agg && not (is_payable agg) && is_at_risk agg (balance agg) cutoff

-- The metrics, each with the sum that it stands for added.
abbrev pub summed :
    List PositionAggregate → String → (cutoff as_of : Instant) → CapitalMetrics → CapitalMetrics
summed aggs currency cutoff as_of m = record {
  open_exposure_units =
      m.open_exposure_units + sum_open (λ a. counted currency a && not (is_payable a)) aggs;
  capital_at_risk_units = m.capital_at_risk_units + sum_open (at_risk currency cutoff) aggs;
  open_payable_exposure_units =
      m.open_payable_exposure_units + sum_open (λ a. counted currency a && is_payable a) aggs;
  overdue_payable_units =
      m.overdue_payable_units + sum_open (falls_due DueState.overdue currency as_of) aggs;
  upcoming_payable_units =
      m.upcoming_payable_units + sum_open (falls_due DueState.upcoming currency as_of) aggs;
  undated_payable_units =
      m.undated_payable_units + sum_open (falls_due DueState.unknown currency as_of) aggs;
}

metrics_ext :
    (m n : CapitalMetrics)
    → m.open_exposure_units ≡ n.open_exposure_units
    → m.capital_at_risk_units ≡ n.capital_at_risk_units
    → m.open_payable_exposure_units ≡ n.open_payable_exposure_units
    → m.overdue_payable_units ≡ n.overdue_payable_units
    → m.upcoming_payable_units ≡ n.upcoming_payable_units
    → m.undated_payable_units ≡ n.undated_payable_units
    → m ≡ n
metrics_ext m n a b c d e f = cc

metrics_from-eq :
    (aggs : List PositionAggregate) (currency : String) (cutoff as_of : Instant)
    (m : CapitalMetrics)
    → metrics_from aggs currency cutoff as_of m ≡ summed aggs currency cutoff as_of m
unfolding metrics_from
metrics_from-eq [] currency cutoff as_of m = ground arith
metrics_from-eq (agg ∷ aggs) currency cutoff as_of m =
    metrics_from-eq aggs currency cutoff as_of _
    ∙ metrics_ext _ _ (ground arith) (ground arith) (ground arith) (ground arith) (ground arith)
        (ground arith)

-- The metrics are sums over the positions of the currency that no reversal voids, of their open
-- balances, an unknown one left out: the exposure over those that are not payable, the capital at
-- risk over those of them that are old enough and untouched, and the payable exposure over the
-- payable ones, with one sum for each state of the due date.
pub compute_capital_metrics_eq :
    (aggs : List PositionAggregate) (currency : String) (cutoff as_of : Instant)
    → compute_capital_metrics aggs currency cutoff as_of
      ≡ summed aggs currency cutoff as_of no_metrics
unfolding compute_capital_metrics
compute_capital_metrics_eq aggs currency cutoff as_of =
    metrics_from-eq aggs currency cutoff as_of no_metrics

abbrev part : Bool → ℕ → ℕ
part t b = if t then b else 0

-- One payable position goes into one of the three sums.
due_split :
    (c p : Bool) (s : DueState) (b x y z w : ℕ)
    → x + y + z ≡ w
    → part (c && p && is_due s DueState.overdue) b
        + x
        + (part (c && p && is_due s DueState.upcoming) b + y)
        + (part (c && p && is_due s DueState.unknown) b + z)
      ≡ part (c && p) b + w
due_split c p DueState.overdue b x y z w h = ground arith
due_split c p DueState.upcoming b x y z w h = ground arith
due_split c p DueState.unknown b x y z w h = ground arith

sums_by_due :
    (aggs : List PositionAggregate) (currency : String) (as_of : Instant)
    → sum_open (falls_due DueState.overdue currency as_of) aggs
        + sum_open (falls_due DueState.upcoming currency as_of) aggs
        + sum_open (falls_due DueState.unknown currency as_of) aggs
      ≡ sum_open (λ a. counted currency a && is_payable a) aggs
sums_by_due [] currency as_of = refl
sums_by_due (agg ∷ aggs) currency as_of =
    due_split (counted currency agg) (is_payable agg) (due_state_of agg as_of) (balance agg) _ _ _ _
      (sums_by_due aggs currency as_of)

-- What is payable is overdue, upcoming or undated, and never two of these: the three sums add up
-- to the payable exposure.
pub payables_partition :
    (aggs : List PositionAggregate) (currency : String) (cutoff as_of : Instant)
    → (compute_capital_metrics aggs currency cutoff as_of).overdue_payable_units
        + (compute_capital_metrics aggs currency cutoff as_of).upcoming_payable_units
        + (compute_capital_metrics aggs currency cutoff as_of).undated_payable_units
      ≡ (compute_capital_metrics aggs currency cutoff as_of).open_payable_exposure_units
payables_partition aggs currency cutoff as_of =
    let split = sums_by_due aggs currency as_of in
    rw (compute_capital_metrics_eq aggs currency cutoff as_of) (omega (arith, split))

sum_open_mono :
    (p q : PositionAggregate → Bool) (aggs : List PositionAggregate)
    → ((a : PositionAggregate) → p a ≡ true → q a ≡ true)
    → sum_open p aggs ≤ sum_open q aggs
sum_open_mono p q [] h = omega arith
sum_open_mono p q (agg ∷ aggs) h = ground (arith, h agg, sum_open_mono p q aggs h)

first_two : (a b c : Bool) → (a && b && c) ≡ true → (a && b) ≡ true
first_two a b c h = ground arith

-- The capital at risk is a part of the exposure.
pub capital_at_risk_within_exposure :
    (aggs : List PositionAggregate) (currency : String) (cutoff as_of : Instant)
    → (compute_capital_metrics aggs currency cutoff as_of).capital_at_risk_units
      ≤ (compute_capital_metrics aggs currency cutoff as_of).open_exposure_units
capital_at_risk_within_exposure aggs currency cutoff as_of =
    let within =
      sum_open_mono (at_risk currency cutoff) (λ a. counted currency a && not (is_payable a)) aggs
        (λ a.
          first_two (counted currency a) (not (is_payable a)) (is_at_risk a (balance a) cutoff)) in
    rw (compute_capital_metrics_eq aggs currency cutoff as_of) (omega (arith, within))
