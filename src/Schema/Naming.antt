-- ===== src/Schema/Naming.antt =====
-- schema/naming.go: the names of tables, columns and constraints.
--
-- A name is a string of ASCII characters, so that its runes are its bytes. The inflection of words, the title case
-- of the initialisms, the replacer of the configuration and the SHA-1 sum in hexadecimal are other code: arguments.
-- A result is `none` where the Go code indexes or slices out of range.
pub mod Ascii
pub mod Snake
pub mod Bounds
mod Tests
use pewter_rinse_moor.Prelude.{
  ℕ, zero, suc, ◌+◌, ◌-◌, Bool, true, false, not, ◌&&◌, ◌||◌, Option, none, some, List, [], ◌∷◌,
  ◌++◌, Bytes, codes, equal_bytes, equal_numbers, ◌==◌, if◌then◌else◌, ltb, leb, length, take, drop,
}
use pewter_rinse_moor.Clause.Conditions.{starts_with}

-- What naming calls: `inflection.Plural`, `cases.Title`, the sum.
pub record Words : Type 0 where
  pub plural : Bytes → Bytes
  pub title : Bytes → Bytes
  pub sum_hex : Bytes → Bytes

-- `NamingStrategy`
pub record NamingStrategy : Type 0 where
  pub table_prefix : Bytes
  pub singular_table : Bool
  pub name_replacer : Option (Bytes → Bytes)
  pub no_lower_case : Bool
  pub identifier_max_length : ℕ

-- `commonInitialisms`
unfoldable pub common_initialisms : List Bytes
unfolding codes
common_initialisms =
    codes "API"
    ∷ codes "ASCII"
    ∷ codes "CPU"
    ∷ codes "CSS"
    ∷ codes "DNS"
    ∷ codes "EOF"
    ∷ codes "GUID"
    ∷ codes "HTML"
    ∷ codes "HTTP"
    ∷ codes "HTTPS"
    ∷ codes "ID"
    ∷ codes "IP"
    ∷ codes "JSON"
    ∷ codes "LHS"
    ∷ codes "QPS"
    ∷ codes "RAM"
    ∷ codes "RHS"
    ∷ codes "RPC"
    ∷ codes "SLA"
    ∷ codes "SMTP"
    ∷ codes "SSH"
    ∷ codes "TLS"
    ∷ codes "TTL"
    ∷ codes "UID"
    ∷ codes "UI"
    ∷ codes "UUID"
    ∷ codes "URI"
    ∷ codes "URL"
    ∷ codes "UTF8"
    ∷ codes "VM"
    ∷ codes "XML"
    ∷ codes "XSRF"
    ∷ codes "XSS"
    ∷ []

-- the first pair whose old string starts here
abbrev pub first_match : (Bytes → Bytes) → List Bytes → Bytes → Option (Bytes × Bytes)
first_match title [] s = none
first_match title (o ∷ os) s =
    let rest = first_match title os s in
    if starts_with s o then some (title o, drop (length o) s) else rest

-- `strings.Replacer.Replace`, with the pairs in their order; the fuel is the length of the string
unfoldable pub replace_all : ℕ → (Bytes → Bytes) → List Bytes → Bytes → Bytes
replace_all fuel title olds [] = []
replace_all zero title olds s = s
replace_all (suc fuel) title olds (x ∷ s) = elim (first_match title olds (x ∷ s)) [
  | some (new, rest) ↦ new ++ replace_all fuel title olds rest
  | none ↦ x ∷ replace_all fuel title olds s
]

abbrev pub is_upper : ℕ → Bool
is_upper x = leb b'A' x && leb x b'Z'

abbrev pub is_digit : ℕ → Bool
is_digit x = leb b'0' x && leb x b'9'

-- whether the byte before is there and not an underscore
abbrev pub is_inner : Option ℕ → Bool
is_inner none = false
is_inner (some p) = not (p == b'_')

abbrev pub is_some : Option ℕ → Bool
is_some none = false
is_some (some p) = true

-- what the loop writes for `x`, between the byte before and `y`; `last` is `lastCase`
unfoldable pub case_step : Option ℕ → Bool → ℕ → ℕ → Bytes
case_step before last x y =
    if is_upper x
    then (if last && (is_upper y || is_digit y)
        then (x + 32) ∷ []
        else (if is_inner before && not (y == b'_') then b'_' ∷ (x + 32) ∷ [] else (x + 32) ∷ []))
    else x ∷ []

-- what follows the loop
unfoldable pub case_end : Option ℕ → Bool → ℕ → Bytes
case_end before last x =
    if is_upper x
    then (if not last && is_some before then b'_' ∷ (x + 32) ∷ [] else (x + 32) ∷ [])
    else x ∷ []

-- the loop and its end
unfoldable pub snake_from : Option ℕ → Bool → Bytes → Bytes
snake_from before last [] = []
snake_from before last (x ∷ []) = case_end before last x
snake_from before last (x ∷ y ∷ s) =
    case_step before last x y ++ snake_from (some x) (is_upper x) (y ∷ s)

-- the name with the initialisms in title case, in snake case
unfoldable pub to_snake : (Bytes → Bytes) → Bytes → Bytes
to_snake title name =
    snake_from none false (replace_all (length name) title common_initialisms name)

-- the case of a name
unfoldable pub to_case : Words → NamingStrategy → Bytes → Bytes
to_case words ns name = if ns.no_lower_case then name else to_snake words.title name

-- `toDBName`
unfoldable pub to_db_name : Words → NamingStrategy → Bytes → Bytes
to_db_name words ns [] = []
to_db_name words ns (x ∷ s) = elim ns.name_replacer [
  | none ↦ to_case words ns (x ∷ s)
  | some replace ↦ elim (replace (x ∷ s)) [ [] ↦ x ∷ s | y ∷ t ↦ to_case words ns (y ∷ t) ]
]

-- `TableName`
unfoldable pub table_name : Words → NamingStrategy → Bytes → Bytes
table_name words ns str =
    if ns.singular_table
    then ns.table_prefix ++ to_db_name words ns str
    else ns.table_prefix ++ words.plural (to_db_name words ns str)

-- `ColumnName`
unfoldable pub column_name : Words → NamingStrategy → Bytes → Bytes → Bytes
column_name words ns table column = to_db_name words ns column

-- `strings.ToLower`
unfoldable pub to_lower : Bytes → Bytes
to_lower [] = []
to_lower (x ∷ s) = (if is_upper x then x + 32 else x) ∷ to_lower s

-- `JoinTableName`
unfoldable pub join_table_name : Words → NamingStrategy → Bytes → Bytes
join_table_name words ns str =
    if not ns.no_lower_case && to_lower str == str
    then ns.table_prefix ++ str
    else (if ns.singular_table
        then ns.table_prefix ++ to_db_name words ns str
        else ns.table_prefix ++ words.plural (to_db_name words ns str))

-- `strings.ReplaceAll(…, ".", "_")`
unfoldable pub dots_replaced : Bytes → Bytes
dots_replaced [] = []
dots_replaced (x ∷ s) = (if x == b'.' then b'_' else x) ∷ dots_replaced s

-- `ns.IdentifierMaxLength`, by default 64
unfoldable pub max_length : NamingStrategy → ℕ
max_length ns = if ns.identifier_max_length == 0 then 64 else ns.identifier_max_length

-- `formatName`
unfoldable pub format_name : Words → NamingStrategy → Bytes → Bytes → Bytes → Option Bytes
format_name words ns prefix table name =
    let formatted = dots_replaced (prefix ++ b'_' ∷ table ++ b'_' ∷ name) in
    let max = max_length ns in
    if ltb max (length formatted)
    then (if ltb max 8
        then none
        else some (take (max - 8) formatted ++ take 8 (words.sum_hex formatted)))
    else some formatted

-- `CheckerName`, `IndexName`, `UniqueName` and `RelationshipFKName`
unfoldable pub checker_name : Words → NamingStrategy → Bytes → Bytes → Option Bytes
unfolding codes
checker_name words ns table column = format_name words ns (codes "chk") table column

unfoldable pub index_name : Words → NamingStrategy → Bytes → Bytes → Option Bytes
unfolding codes
index_name words ns table column =
    format_name words ns (codes "idx") table (to_db_name words ns column)

unfoldable pub unique_name : Words → NamingStrategy → Bytes → Bytes → Option Bytes
unfolding codes
unique_name words ns table column =
    format_name words ns (codes "uni") table (to_db_name words ns column)

unfoldable pub relationship_fk_name : Words → NamingStrategy → Bytes → Bytes → Option Bytes
unfolding codes
relationship_fk_name words ns table relation =
    format_name words ns (codes "fk") table (to_db_name words ns relation)
