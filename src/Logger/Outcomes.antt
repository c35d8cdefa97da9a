-- ===== src/Logger/Outcomes.antt =====
-- Tests on the actions of src/logger/types.rs.
use ad_nope.Prelude.{Bool, true, false}
use ad_nope.Logger.{QueryLogAction, blocked, cached}

abbrev pub is_blocked : QueryLogAction → Bool
is_blocked blocked = true
is_blocked _ = false

abbrev pub is_cached : QueryLogAction → Bool
is_cached cached = true
is_cached _ = false
