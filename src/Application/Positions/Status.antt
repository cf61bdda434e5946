-- ===== src/Application/Positions/Status.antt =====
-- Status and open balance of a position (ledger/src/core/application/dtos/positionUtils.ts).
use ledger_system.Prelude.{
  ℕ, ◌+◌, ◌≡◌, ◌≢◌, true, false, none, some, ◌==◌, nat_eq, arith, ltb, leb, ◌-◌, Bool-cases, inl,
  inr,
}
use ledger_system.Application.Positions.{
  PositionAggregate, PositionStatus, has_unknown_origination, total_closed, derive_position_status,
  open_balance_units_of,
}

-- What each status says of the totals.
abbrev pub Means : PositionStatus → PositionAggregate → Type 0
Means PositionStatus.reversed agg = agg.has_reversal ≡ true
Means PositionStatus.unknown_origin agg =
    (agg.has_reversal ≡ false) × (open_balance_units_of agg ≡ none)
Means PositionStatus.fully_settled agg =
    (agg.has_reversal ≡ false)
    × (agg.total_originated_units ≢ 0)
    × (open_balance_units_of agg ≡ some 0)
Means PositionStatus.partially_settled agg =
    (agg.has_reversal ≡ false)
    × (total_closed agg ≢ 0)
    × ((b : ℕ) × (open_balance_units_of agg ≡ some b)
        × (b ≢ 0)
        × (b + total_closed agg ≡ agg.total_originated_units))
Means PositionStatus.open_ agg =
    (agg.has_reversal ≡ false)
    × (open_balance_units_of agg ≡ some agg.total_originated_units)
    × (agg.total_originated_units ≢ 0 → total_closed agg ≡ 0)

means :
    (agg : PositionAggregate) (s : PositionStatus)
    → derive_position_status agg ≡ s
    → Means s agg
    → Means (derive_position_status agg) agg
means agg s e h = rw e h

-- What each status says of the totals of a position, where an amount is closed by settlements and by
-- adjustments alike: reversed, that a reversal voids it; unknown origin, that its open balance is
-- unknown; fully settled, that something opened it and nothing is open; partially settled, that some
-- is closed, some is open, and the two add up to what opened it; open, that its open balance is what
-- opened it, and nothing is closed if anything opened it. A position that nothing opened is open
-- even where something is closed on it.
pub derive_position_status-Means :
    (agg : PositionAggregate) → Means (derive_position_status agg) agg
unfolding derive_position_status open_balance_units_of has_unknown_origination
derive_position_status-Means agg = elim (Bool-cases agg.has_reversal) [
  | inl void ↦ means agg PositionStatus.reversed (ground (arith, void)) void
  | inr stands ↦ elim (Bool-cases (has_unknown_origination agg)) [
    | inl u ↦
        means agg PositionStatus.unknown_origin (ground (arith, stands, u))
          (stands, ground (arith, u))
    | inr k ↦ elim (Bool-cases (agg.total_originated_units == 0)) [
      | inl z ↦
          means agg PositionStatus.open_ (ground (arith, stands, k, z))
            (stands, ground (arith, k, z), ground (arith, z))
      | inr n ↦ elim (Bool-cases (leb agg.total_originated_units (total_closed agg))) [
        | inl full ↦
            means agg PositionStatus.fully_settled (ground (arith, stands, k, n, full))
              (stands, ground (arith, n), ground (arith, k, full))
        | inr less ↦ elim (Bool-cases (ltb 0 (total_closed agg))) [
          | inl part ↦
              means agg PositionStatus.partially_settled (ground (arith, stands, k, n, less, part))
                (
                  stands,
                  ground (arith, part),
                  (
                    agg.total_originated_units - total_closed agg,
                    ground (arith, k, less),
                    ground (arith, less),
                    ground (arith, less),
                  ),
                )
          | inr none_closed ↦
              means agg PositionStatus.open_ (ground (arith, stands, k, n, less, none_closed))
                (stands, ground (arith, k, less, none_closed), λ _. ground (arith, none_closed))
        ]
      ]
    ]
  ]
]
