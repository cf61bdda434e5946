-- ===== src/Prelude/Strings.antt =====
-- Methods of JavaScript strings, and regular expressions that look for a phrase in any case.
pub mod Blank
use Prim.Native.Nat.{ℕ, ◌+◌}
use Prim.Native.Char.{code}
use Prim.Native.String.{String, ◌++◌ as append}
use mathlib.Core.Bool.{Bool, true, false, ◌&&◌, ◌||◌}
use mathlib.Core.Option.{Option, none, some}
use mathlib.Core.List.{List, [], ◌∷◌}
use ledger_system.Prelude.Tests.{leb, ◌==◌, nat_eq, string_eq, if◌then◌else◌}
use ledger_system.Prelude.Texts.{codes}

infixr 30 ◌<>◌
abbrev pub ◌<>◌ : String → String → String
s <> t = append s t

-- `texts.join(separator)`
unfoldable pub join : String → List String → String
join separator [] = ""
join separator (t ∷ []) = t
join separator (t ∷ u ∷ ts) = t <> separator <> join separator (u ∷ ts)

-- `\s`, the code points that `trim` removes.
abbrev pub is_space : ℕ → Bool
is_space c =
    (leb 9 c && leb c 13)
    || c == 32
    || c == 160
    || c == 5760
    || (leb 8192 c && leb c 8202)
    || c == 8232
    || c == 8233
    || c == 8239
    || c == 8287
    || c == 12288
    || c == 65279

unfoldable pub trim_start : String → String
trim_start String.[] = ""
trim_start (String.◌∷◌ c s) =
    let rest = trim_start s in if is_space (code c) then rest else String.◌∷◌ c s

unfoldable pub trim_end : String → String
trim_end String.[] = ""
trim_end (String.◌∷◌ c s) =
    let rest = trim_end s in if rest == "" && is_space (code c) then "" else String.◌∷◌ c rest

unfoldable pub trim : String → String
trim s = trim_end (trim_start s)

-- `!text?.trim()` of a text that is given.
unfoldable pub is_blank : String → Bool
unfolding trim trim_start trim_end
is_blank s = trim s == ""

-- Equality of code points under the flag `i`: letters of ASCII match in either case.
abbrev lower : ℕ → ℕ
lower c = if leb b'A' c && leb c b'Z' then c + 32 else c

-- The rest of a text behind a phrase that it begins with.
unfoldable pub behind : List ℕ → String → Option String
behind [] s = some s
behind (p ∷ ps) String.[] = none
behind (p ∷ ps) (String.◌∷◌ c s) =
    let rest = behind ps s in if lower p == lower (code c) then rest else none

-- Where a phrase first occurs: what stands behind it there.
unfoldable pub search_for : List ℕ → String → Option String
unfolding behind
search_for p String.[] = behind p ""
search_for p (String.◌∷◌ c s) =
    let later = search_for p s in
    elim (behind p (String.◌∷◌ c s)) [ none ↦ later | some rest ↦ some rest ]

abbrev pub is_found : Option String → Bool
is_found none = false
is_found (some rest) = true

-- `/phrase/i.test(text)`
unfoldable pub mentions : String → String → Bool
unfolding search_for behind
mentions phrase text = is_found (search_for (codes phrase) text)

-- The rest of a text behind a prefix, in the same case.
unfoldable pub after_prefix : List ℕ → String → Option String
after_prefix [] s = some s
after_prefix (p ∷ ps) String.[] = none
after_prefix (p ∷ ps) (String.◌∷◌ c s) =
    let rest = after_prefix ps s in if p == code c then rest else none

-- `\w`
abbrev is_word : ℕ → Bool
is_word c =
    (leb b'A' c && leb c b'Z')
    || (leb b'a' c && leb c b'z')
    || (leb b'0' c && leb c b'9')
    || c == b'_'

-- The run of characters of words that a text begins with.
unfoldable pub word : String → String
word String.[] = ""
word (String.◌∷◌ c s) = let rest = word s in if is_word (code c) then String.◌∷◌ c rest else ""

-- What stands behind the run of characters without a space that a text begins with.
unfoldable pub behind_run : String → String
behind_run String.[] = ""
behind_run (String.◌∷◌ c s) =
    let rest = behind_run s in if is_space (code c) then String.◌∷◌ c s else rest

-- `.` matches no end of a line.
abbrev ends_line : ℕ → Bool
ends_line c = c == 10 || c == 13 || c == 8232 || c == 8233

unfoldable pub one_line : String → Bool
one_line String.[] = true
one_line (String.◌∷◌ c s) = if ends_line (code c) then false else one_line s
