-- ===== src/Explain.antt =====
-- `ExplainSQL` of logger/sql.go: the statement with its variables, as it is logged. For placeholders that are
-- question marks; numbered ones are found by regular expressions.
--
-- A variable stands here as the type switch of `convertParams` sees it, with the texts that the packages strconv,
-- time and fmt make of it; the test for printable text is an argument. The quote `escaper` is one byte.
pub mod Places
pub mod Literals
mod Tests
use pewter_rinse_moor.Prelude.{
  ℕ, Bool, true, false, List, [], ◌∷◌, ◌++◌, Bytes, codes, equal_numbers, ◌==◌, if◌then◌else◌,
}

-- A variable: `driver.Valuer` and pointers hold another one; `nil` stands for every form of it.
pub data Variable : Type 0 where
  boolean : Bool → Variable
  zero_time : Variable
  time : Bytes → Variable
  number : Bytes → Variable
  bytes : Bytes → Variable
  text : Bytes → Variable
  nil : Variable
  valuer : Variable → Variable
  pointer : Variable → Variable

unfoldable pub null_str : Bytes
unfolding codes
null_str = codes "NULL"

unfoldable pub tm_fmt_zero : Bytes
unfolding codes
tm_fmt_zero = codes "0000-00-00 00:00:00"

unfoldable pub binary_str : Bytes
unfolding codes
binary_str = codes "<binary>"

-- `strconv.FormatBool`
unfoldable pub format_bool : Bool → Bytes
unfolding codes
format_bool true = codes "true"
format_bool false = codes "false"

-- `strings.ReplaceAll(v, escaper, escaper+escaper)`
unfoldable pub doubled : ℕ → Bytes → Bytes
doubled e [] = []
doubled e (x ∷ s) = if x == e then e ∷ e ∷ doubled e s else x ∷ doubled e s

abbrev pub in_quotes : ℕ → Bytes → Bytes
in_quotes e s = e ∷ s ++ e ∷ []

-- `convertParams`
unfoldable pub convert_param : (Bytes → Bool) → ℕ → Variable → Bytes
convert_param is_printable e (boolean b) = format_bool b
convert_param is_printable e zero_time = in_quotes e tm_fmt_zero
convert_param is_printable e (time t) = in_quotes e t
convert_param is_printable e (number n) = n
convert_param is_printable e (bytes s) =
    if is_printable s then in_quotes e (doubled e s) else in_quotes e binary_str
convert_param is_printable e (text s) = in_quotes e (doubled e s)
convert_param is_printable e nil = null_str
convert_param is_printable e (valuer v) = convert_param is_printable e v
convert_param is_printable e (pointer v) = convert_param is_printable e v

unfoldable pub convert_params : (Bytes → Bool) → ℕ → List Variable → List Bytes
convert_params is_printable e [] = []
convert_params is_printable e (v ∷ vs) =
    convert_param is_printable e v ∷ convert_params is_printable e vs

-- the loop over the bytes of the statement, with the variables from `idx` on
unfoldable pub put_vars : Bytes → List Bytes → Bytes
put_vars [] vars = []
put_vars (x ∷ sql) [] = x ∷ put_vars sql []
put_vars (x ∷ sql) (v ∷ vars) =
    if x == b'?' then v ++ put_vars sql vars else x ∷ put_vars sql (v ∷ vars)

-- `ExplainSQL` without a numeric placeholder
unfoldable pub explain_sql : (Bytes → Bool) → Bytes → ℕ → List Variable → Bytes
explain_sql is_printable sql e avars = put_vars sql (convert_params is_printable e avars)
