-- ===== src/Schema/Tags/RoundTrip.antt =====
-- `ParseTagSetting` reads back the settings that are written as a tag.
use pewter_rinse_moor.Prelude.{
  ℕ, ◌≡◌, Bool, true, false, ◌||◌, [], ◌∷◌, ◌++◌, Bytes, equal_bytes, equal_numbers, ◌==◌,
}
use pewter_rinse_moor.Clause.Conditions.{to_upper}
use pewter_rinse_moor.Schema.Texts.{trim_space, has}
use pewter_rinse_moor.Schema.Tags.{Settings}
use pewter_rinse_moor.Schema.Tags.Escaped.{is_safe}

-- A setting that a tag can hold: the key is in upper case and trimmed, without colons and separators, and
-- no backslash stands in front of a separator of the value or at its end.
pub record IsSetting (sep : ℕ) (e : Bytes × Bytes) : Type 0 where
  pub upper : trim_space (to_upper e.0) ≡ e.0
  pub no_colon : has b':' e.0 ≡ false
  pub no_separator : has sep e.0 ≡ false
  pub safe : is_safe sep e.1 ≡ true

abbrev pub has_key : Bytes → Settings → Bool
has_key k [] = false
has_key k ((n, w) ∷ l) = n == k || has_key k l

-- No key comes twice, or is one of those seen.
abbrev pub Distinct : Settings → Settings → Type 0
Distinct seen [] = Unit
Distinct seen ((k, v) ∷ l) = (has_key k seen ≡ false) × Distinct (seen ++ (k, v) ∷ []) l
