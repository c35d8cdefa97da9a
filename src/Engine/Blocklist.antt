-- ===== src/Engine/Blocklist.antt =====
-- src/engine/blocklist_manager.rs: `StandardManager`, which fetches the configured lists and builds
-- a matcher from their lines. HTTP and the Unicode case tables are parameters.
pub mod Sources
pub mod Refresh
use ad_nope.Prelude.{
  ℕ, ◌+◌, String, Bool, true, false, ◌||◌, Option, none, some, List, [], ◌∷◌, ltb, string_eq,
  if◌then◌else◌,
}
use ad_nope.Prelude.HashMap
use ad_nope.Prelude.HashMap.{HashMap}
use ad_nope.Prelude.Schedule.{completed}
use ad_nope.Prelude.Text.{trim, is_empty, starts_with}
use ad_nope.Config.{Config}
use ad_nope.Config.Blocklists.{get_blocklists_sorted}
use ad_nope.Engine.Matcher.{HashedMatcher, new}

-- What `next_line` yields, and what `client.get(url).send()` does. The end of the lines is the end
-- of the body.
pub data LineRead : Type 0 where
  line : String → LineRead
  broken : LineRead

pub data Response : Type 0 where
  body : List LineRead → Response
  failed : Response

unfoldable pub insert_entries : List (String × ℕ) → HashMap String ℕ → HashMap String ℕ
insert_entries [] m = m
insert_entries ((domain, source) ∷ rest) m = insert_entries rest (HashMap.insert domain source m)

unfoldable pub insert_lists : List (List (String × ℕ)) → HashMap String ℕ → HashMap String ℕ
insert_lists [] m = m
insert_lists (list ∷ results) m = insert_lists results (insert_entries list m)

-- The cast of a list's index to `u8`, which stops at 255.
unfoldable pub source_id_of : ℕ → ℕ
source_id_of idx = if ltb 255 idx then 255 else idx

-- `if let Some(domain) = …`: the entry of a line, before those of the lines that follow.
abbrev pub push_domain : ℕ → Option String → List (String × ℕ) → List (String × ℕ)
push_domain source_id (some domain) entries = (domain, source_id) ∷ entries
push_domain source_id none entries = entries

-- `str::to_lowercase` is a parameter.
module _ (to_lowercase : String → String) where
  unfoldable pub parse_line : String → Option String
  unfolding trim is_empty starts_with
  parse_line text =
      let t = trim text in if is_empty t || starts_with b'#' t then none else some (to_lowercase t)

  -- The loop of `fetch_and_parse`: it stops at the first read that is not a line.
  unfoldable pub parse_lines : ℕ → List LineRead → List (String × ℕ)
  parse_lines source_id [] = []
  parse_lines source_id (broken ∷ rest) = []
  parse_lines source_id (line text ∷ rest) =
      push_domain source_id (parse_line text) (parse_lines source_id rest)

  unfoldable pub fetch_and_parse : Response → ℕ → List (String × ℕ)
  fetch_and_parse (body lines) source_id = parse_lines source_id lines
  fetch_and_parse failed source_id = []

  module _ (http : String → Response) where
    -- The tasks of `refresh`, from the index `idx` on.
    unfoldable pub fetch_all : ℕ → List (String × String) → List (List (String × ℕ))
    fetch_all idx [] = []
    fetch_all idx ((name, url) ∷ blocklists) =
        fetch_and_parse (http url) (source_id_of idx) ∷ fetch_all (idx + 1) blocklists

    -- The results are collected in the order in which the downloads complete.
    unfoldable pub refresh : List ℕ → Config → HashedMatcher
    refresh schedule config =
        let results = completed schedule (fetch_all 0 (get_blocklists_sorted config.blocklists)) in
        new (insert_lists results []) config.allowlist
