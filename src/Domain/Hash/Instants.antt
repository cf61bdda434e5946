-- ===== src/Domain/Hash/Instants.antt =====
-- `Date.prototype.toISOString` of an instant since the epoch.
use Prim.Native.String.{◌++◌ as append}
use ledger_system.Prelude.{ℕ, ◌+◌, ◌-◌, ◌*◌, ◌/◌, ◌%◌, String, ◌≡◌, refl, ltb, leb, if◌then◌else◌}
use ledger_system.Prelude.Texts.{print}

-- At least two, three or four digits.
abbrev two : ℕ → String
two n = if ltb n 10 then append "0" (print n) else print n

abbrev three : ℕ → String
three n = if ltb n 100 then append "0" (two n) else print n

abbrev four : ℕ → String
four n = if ltb n 1000 then append "0" (three n) else print n

abbrev six : ℕ → String
six n = if ltb n 100000 then append "0" (print n) else print n

-- A year past 9999 is written with a sign and six digits.
abbrev year_text : ℕ → String
year_text y = if ltb y 10000 then four y else append "+" (six y)

-- The calendar date of a number of days since 1970-01-01, counted from 0000-03-01 in eras of 400
-- years: the year, the month and the day.
abbrev calendar : ℕ → String
calendar days =
    let z = days + 719468 in
    let era = z / 146097 in
    let doe = z % 146097 in
    let yoe = (doe - doe / 1460 + doe / 36524 - doe / 146096) / 365 in
    let doy = doe - (365 * yoe + yoe / 4 - yoe / 100) in
    let mp = (5 * doy + 2) / 153 in
    let day = doy - (153 * mp + 2) / 5 + 1 in
    let month = if ltb mp 10 then mp + 3 else mp - 9 in
    let year = yoe + era * 400 + (if leb month 2 then 1 else 0) in
    append (year_text year) (append "-" (append (two month) (append "-" (two day))))

unfoldable pub to_iso_string : ℕ → String
unfolding print
to_iso_string ms =
    let seconds = ms / 1000 in
    append (calendar (seconds / 86400)) (
      append "T" (
        append (two (seconds / 3600 % 24)) (
          append ":" (
            append (two (seconds / 60 % 60)) (
              append ":"
                (append (two (seconds % 60)) (append "." (append (three (ms % 1000)) "Z"))))))))

leap_day : to_iso_string 1709210096007 ≡ "2024-02-29T12:34:56.007Z"
unfolding to_iso_string
leap_day = refl

epoch : to_iso_string 0 ≡ "1970-01-01T00:00:00.000Z"
unfolding to_iso_string
epoch = refl
