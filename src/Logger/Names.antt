-- ===== src/Logger/Names.antt =====
-- The name of the blocklist behind the number of a source, as the sinks of src/logger look it up.
use ad_nope.Prelude.{ℕ, String, Option, none, some, List, get_elem?}

-- `entry.source_id.and_then(|id| blocklist_names.get(id as usize))`
abbrev pub blocklist_name_of : List String → Option ℕ → Option String
blocklist_name_of names none = none
blocklist_name_of names (some id) = get_elem? names id
