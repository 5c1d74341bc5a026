-- ===== src/Schema/Naming/Tests.antt =====
-- Names of fields, and a concrete strategy.
use pewter_rinse_moor.Prelude.{
  ◌≤◌, ◌≡◌, refl, false, none, some, [], ◌∷◌, ◌++◌, Bytes, codes, arith, equal_bytes, equal_numbers,
  length, All,
}
use pewter_rinse_moor.Clause.Conditions.{starts_with}
use pewter_rinse_moor.Schema.Naming.{
  Words, NamingStrategy, common_initialisms, replace_all, case_step, case_end, snake_from, to_snake,
  to_case, to_db_name, to_lower, dots_replaced, max_length, format_name,
}
use pewter_rinse_moor.Schema.Naming.{index_name, table_name}
use pewter_rinse_moor.Schema.Naming.Ascii.{IsAscii}
use pewter_rinse_moor.Schema.Naming.Snake.{IsSmall, letters, to_snake-IsSmall}
use pewter_rinse_moor.Schema.Naming.Bounds.{HasNoDot, formatted, format_name-fits}

abbrev title : Bytes → Bytes
title [] = []
title (x ∷ s) = x ∷ to_lower s

abbrev words : Words
words = record {
  plural = λ s. s ++ b's' ∷ [];
  title = title;
  sum_hex = λ s. b'0' ∷ b'a' ∷ b'1' ∷ b'b' ∷ b'2' ∷ b'c' ∷ b'3' ∷ b'd' ∷ b'4' ∷ [];
}

abbrev strategy : NamingStrategy
strategy = record {
  table_prefix = codes "t_";
  singular_table = false;
  name_replacer = none;
  no_lower_case = false;
  identifier_max_length = 20;
}

to_snake_ids : to_snake title (codes "HTTPServerID") ≡ codes "http_server_id"
unfolding codes to_snake replace_all common_initialisms starts_with to_lower snake_from case_step
    case_end
to_snake_ids = refl

table_name_users : table_name words strategy (codes "UserURL") ≡ codes "t_user_urls"
unfolding codes to_snake replace_all common_initialisms starts_with to_lower snake_from case_step
    case_end table_name to_db_name to_case
table_name_users = refl

index_name_long :
    index_name words strategy (codes "db.users") (codes "CompanyName")
    ≡ some (codes "idx_db_users0a1b2c3d")
unfolding codes to_snake replace_all common_initialisms starts_with to_lower snake_from case_step
    case_end index_name to_db_name to_case format_name dots_replaced max_length
index_name_long = refl

-- a maximum below 8 slices out of range
format_name_short :
    format_name words
      (record strategy { identifier_max_length = 7 })
      (codes "fk")
      (codes "users")
      (codes "company")
    ≡ none
unfolding codes format_name dots_replaced max_length
format_name_short = refl

lower-IsAscii : (s : Bytes) → All IsAscii s → All IsAscii (to_lower s)
unfolding to_lower
lower-IsAscii [] a = tt
lower-IsAscii (x ∷ s) (h, a) = (ground arith, lower-IsAscii s a)

title-IsAscii : (s : Bytes) → All IsAscii s → All IsAscii (title s)
title-IsAscii [] a = tt
title-IsAscii (x ∷ s) (h, a) = (h, lower-IsAscii s a)

to_snake-IsSmall_example :
    All IsSmall (to_snake title (codes "UserID"))
    × All IsAscii (to_snake title (codes "UserID"))
    × (letters (to_snake title (codes "UserID")) ≡ codes "userid")
    × (to_snake title (to_snake title (codes "UserID")) ≡ to_snake title (codes "UserID"))
unfolding codes replace_all common_initialisms starts_with to_lower
to_snake-IsSmall_example =
    to_snake-IsSmall title (codes "UserID") title-IsAscii
      (omega arith, (omega arith, (omega arith, (omega arith, (omega arith, (omega arith, tt))))))

format_name-fits_example :
    (r : Bytes) × (format_name words strategy
        (codes "idx")
        (codes "db.users")
        (codes "company_name")
      ≡ some r)
    × (length r ≤ 20)
    × HasNoDot r
    × (length (formatted (codes "idx") (codes "db.users") (codes "company_name")) ≤ 20
        → r ≡ formatted (codes "idx") (codes "db.users") (codes "company_name"))
unfolding max_length
format_name-fits_example =
    format_name-fits words strategy (codes "idx") (codes "db.users") (codes "company_name")
      (omega arith)
      (λ s. (refl, (refl, (refl, (refl, (refl, (refl, (refl, (refl, (refl, tt))))))))))
