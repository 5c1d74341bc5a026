-- ===== src/Schema/Tags/Tests.antt =====
-- Tags of fields.
use pewter_rinse_moor.Prelude.{◌≡◌, refl, [], ◌∷◌, codes, bytes_beq}
use pewter_rinse_moor.Clause.Conditions.{to_upper}
use pewter_rinse_moor.Schema.Texts.{split, join, trim_space}
use pewter_rinse_moor.Schema.Tags.{
  Settings, put_setting, merge_names, parsed_names, unquote, add_values, add_tags,
  parse_tag_setting, to_columns,
}

parse_tag_setting_field :
    parse_tag_setting (codes "primaryKey; default:a\\;b ;column:c:d") b';'
    ≡ (codes "PRIMARYKEY", codes "PRIMARYKEY")
      ∷ (codes "DEFAULT", codes "a;b ")
      ∷ (codes "COLUMN", codes "c:d")
      ∷ []
unfolding parse_tag_setting split parsed_names merge_names add_tags add_values trim_space to_upper
    bytes_beq join unquote put_setting codes
parse_tag_setting_field = refl

to_columns_two : to_columns (codes "a, b ") ≡ codes "a" ∷ codes "b" ∷ []
unfolding to_columns split trim_space bytes_beq codes
to_columns_two = refl

abbrev settings : Settings
settings = (codes "SIZE", codes "8") ∷ (codes "CHECK", codes "a\"b;c:d") ∷ []
