-- ===== src/Schema/Tags.antt =====
-- `ParseTagSetting` and `toColumns` of schema/utils.go. The separator is one byte, as in every call. The map of the
-- settings is a list of pairs, in the order in which the keys came.
pub mod Escaped
pub mod RoundTrip
mod Tests
use pewter_rinse_moor.Prelude.{
  ℕ, Bool, true, false, Option, none, some, List, [], ◌∷◌, ◌++◌, Bytes, equal_bytes, equal_numbers,
  ◌==◌, if◌then◌else◌, not, ◌&&◌,
}
use pewter_rinse_moor.Clause.Conditions.{to_upper}
use pewter_rinse_moor.Schema.Texts.{split, join, ends_with, without_last, trim_space}

abbrev pub Settings : Type 0
Settings = List (Bytes × Bytes)

-- `settings[k] = v`
unfoldable pub put_setting : Bytes → Bytes → Settings → Settings
put_setting k v [] = (k, v) ∷ []
put_setting k v ((n, w) ∷ l) = if n == k then (n, v) ∷ l else (n, w) ∷ put_setting k v l

-- `settings[k]`, where it is there
unfoldable pub find_setting : Bytes → Settings → Option Bytes
find_setting k [] = none
find_setting k ((n, v) ∷ l) = if n == k then some v else find_setting k l

-- The loop over the names: a name that ends in a backslash goes on in the next one.
unfoldable pub merge_names : ℕ → Bytes → List Bytes → List Bytes
merge_names sep s [] = s ∷ []
merge_names sep s (n ∷ ns) = elim (ends_with b'\\' s) [
  | true ↦ merge_names sep (without_last s ++ sep ∷ n) ns
  | false ↦ s ∷ merge_names sep n ns
]

-- `parsedNames`
unfoldable pub parsed_names : ℕ → List Bytes → List Bytes
parsed_names sep [] = []
parsed_names sep (n ∷ ns) = merge_names sep n ns

-- `strings.ReplaceAll(val, `\"`, `"`)`
unfoldable pub unquote : Bytes → Bytes
unquote [] = []
unquote (x ∷ []) = x ∷ []
unquote (x ∷ y ∷ s) = elim (x == b'\\' && y == b'"') [
  | true ↦ b'"' ∷ unquote s
  | false ↦ x ∷ unquote (y ∷ s)
]

-- one tag
unfoldable pub add_values : List Bytes → Settings → Settings
add_values [] l = l
add_values (n ∷ []) l =
    let k = trim_space (to_upper n) in if not (k == []) then put_setting k k l else l
add_values (n ∷ v ∷ vs) l = put_setting (trim_space (to_upper n)) (unquote (join b':' (v ∷ vs))) l

unfoldable pub add_tags : List Bytes → Settings → Settings
add_tags [] l = l
add_tags (tag ∷ tags) l = add_tags tags (add_values (split b':' tag) l)

-- `ParseTagSetting`
unfoldable pub parse_tag_setting : Bytes → ℕ → Settings
parse_tag_setting str sep = add_tags (parsed_names sep (split sep str)) []

abbrev trimmed : List Bytes → List Bytes
trimmed [] = []
trimmed (v ∷ vs) = trim_space v ∷ trimmed vs

-- `toColumns`
unfoldable pub to_columns : Bytes → List Bytes
to_columns val = if not (val == []) then trimmed (split b',' val) else []
