-- ===== src/Callbacks/Plain.antt =====
-- Callbacks without Before and After: sorting returns, and keeps the order of registration.
use pewter_rinse_moor.Prelude.{◌≡◌, List, [], ◌∷◌, ◌++◌, Bytes, equal_bytes, if◌then◌else◌}
use pewter_rinse_moor.Callbacks.{Callback, is_none, get_r_index}

abbrev pub IsPlain : {Db : Type 0} → Callback Db → Type 0
IsPlain c = (c.before ≡ []) × (c.after ≡ [])

-- the names behind the given ones, each where it comes first
unfoldable pub place : List Bytes → List Bytes → List Bytes
place [] s = s
place (n ∷ ns) s = place ns (if is_none (get_r_index s n) then s ++ n ∷ [] else s)
