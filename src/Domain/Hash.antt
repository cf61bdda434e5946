-- ===== src/Domain/Hash.antt =====
-- Canonical forms and hashes (ledger/src/core/domain/value-objects/EventHash.ts). `Json` is a value
-- that `canonicalize` is given; SHA-256 is a parameter, a function from the canonical text.
pub mod Instants
use Prim.Native.Char.{Char, code}
use Prim.Native.String.{compare as compare_text, ◌++◌ as append}
use Prim.Native.Nat.{Ordering}
use ledger_system.Prelude.{
  ℕ, ◌/◌, ◌%◌, String, Bool, true, false, Option, none, some, List, [], ◌∷◌, ltb, ◌==◌, nat_eq,
  if◌then◌else◌,
}
use ledger_system.Prelude.Texts.{print}

mutual
  pub data Json : Type 0 where
    null : Json
    bool : Bool → Json
    text : String → Json
    array : Items → Json
    object : Fields → Json

  pub data Items : Type 0 where
    nil : Items
    cons : Json → Items → Items

  pub data Fields : Type 0 where
    end : Fields
    field : String → Json → Fields → Fields

-- A digit of `\u00XX`.
abbrev hex_digit : ℕ → String
hex_digit n =
    if ltb n 10
    then print n
    else if n == 10
    then "a"
    else if n == 11
    then "b"
    else if n == 12
    then "c"
    else if n == 13
    then "d"
    else if n == 14
    then "e"
    else "f"

-- One character inside the quotes of `JSON.stringify`.
abbrev escape : Char → String
escape c =
    let n = code c in
    if n == b'"'
    then "\\\""
    else if n == 92
    then "\\\\"
    else if n == 8
    then "\\b"
    else if n == 9
    then "\\t"
    else if n == 10
    then "\\n"
    else if n == 12
    then "\\f"
    else if n == 13
    then "\\r"
    else if ltb n 32
    then append "\\u00" (append (hex_digit (n / 16)) (hex_digit (n % 16)))
    else String.◌∷◌ c ""

abbrev escape_all : String → String
escape_all String.[] = ""
escape_all (String.◌∷◌ c s) = append (escape c) (escape_all s)

-- `JSON.stringify` of a text.
unfoldable pub quote : String → String
quote s = append "\"" (append (escape_all s) "\"")

-- A rendered pair `"key":value`, kept beside its key for the sort.
pub record Pair : Type 0 where
  pub key : String
  pub rendered : String

abbrev pub is_before : String → String → Bool
is_before a b = elim (compare_text a b) [ Ordering.lt ↦ true | _ ↦ false ]

-- `Object.keys(obj).sort()`, on the rendered pairs.
abbrev pub insert_pair : Pair → List Pair → List Pair
insert_pair p [] = p ∷ []
insert_pair p (q ∷ qs) =
    let rest = insert_pair p qs in if is_before q.key p.key then q ∷ rest else p ∷ q ∷ qs

abbrev pub sort_pairs : List Pair → List Pair
sort_pairs [] = []
sort_pairs (p ∷ ps) = insert_pair p (sort_pairs ps)

-- `parts.join(",")`
abbrev pub join : List String → String
join [] = ""
join (s ∷ []) = s
join (s ∷ t ∷ ss) = append s (append "," (join (t ∷ ss)))

abbrev pub rendered_of : List Pair → List String
rendered_of [] = []
rendered_of (p ∷ ps) = p.rendered ∷ rendered_of ps

unfoldable mutual
  unfolding quote

  pub canonicalize : Json → String
  canonicalize null = "null"
  canonicalize (bool true) = "true"
  canonicalize (bool false) = "false"
  canonicalize (text s) = quote s
  canonicalize (array xs) = append "[" (append (join (canonicalize_items xs)) "]")
  canonicalize (object fs) =
      append "{" (append (join (rendered_of (sort_pairs (canonicalize_fields fs)))) "}")

  pub canonicalize_items : Items → List String
  canonicalize_items nil = []
  canonicalize_items (cons x xs) = canonicalize x ∷ canonicalize_items xs

  pub canonicalize_fields : Fields → List Pair
  canonicalize_fields end = []
  canonicalize_fields (field k v fs) =
      record { key = k; rendered = append (quote k) (append ":" (canonicalize v)) }
      ∷ canonicalize_fields fs

-- `EventHash.generateCanonical(data)`, over the digest `sha256`.
unfoldable pub generate_canonical : (String → String) → Json → String
unfolding canonicalize
generate_canonical sha256 data_ = sha256 (canonicalize data_)
