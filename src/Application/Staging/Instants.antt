-- ===== src/Application/Staging/Instants.antt =====
-- Reading an instant that a caller wrote (ledger/src/core/application/utils/instant.ts). `new Date`,
-- which depends on the time zone of the process, is an argument; it gives an instant for every text.
use ledger_system.Prelude.{
  ℕ, String, Bool, false, ◌&&◌, Option, none, some, List, [], ◌∷◌, ◌==◌, nat_eq, string_eq,
  if◌then◌else◌, all,
}
use ledger_system.Prelude.Texts.{codes, is_digit}
use ledger_system.Prelude.Strings.{◌<>◌, trim}
use ledger_system.Domain.Entities.{Instant}

-- `/^\d{4}-\d{2}-\d{2}$/`
abbrev pub date_only : List ℕ → Bool
date_only (a ∷ b ∷ c ∷ d ∷ e ∷ f ∷ g ∷ h ∷ i ∷ j ∷ []) =
    all is_digit (a ∷ b ∷ c ∷ d ∷ f ∷ g ∷ i ∷ j ∷ []) && e == b'-' && h == b'-'
date_only _ = false

unfoldable pub parse_instant : (new_date : String → Instant) → String → Instant
unfolding trim
parse_instant new_date value =
    if date_only (codes (trim value)) then new_date (trim value <> "T00:00:00") else new_date value

unfoldable pub parse_optional_instant :
    (new_date : String → Instant) → Option String → Option Instant
unfolding parse_instant
parse_optional_instant new_date none = none
parse_optional_instant new_date (some value) =
    if value == "" then none else some (parse_instant new_date value)
