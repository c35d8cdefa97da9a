-- ===== src/Tests/Engine.antt =====
-- The theorems on the configuration, the matcher, the refresh and the pause, at concrete inputs.
use mathlib.Core.Bool.{false≢true}
use mathlib.Core.List.{Nodup, Nodup-cons, Pairwise, mem-singleton, not-mem-nil, map}
use mathlib.Core.List.Perm
use ad_nope.Prelude.{
  ℕ, ◌≡◌, ◌↔◌, refl, ◌⊎◌, ◌∷◌, [], String, none, some, panics, arith, string_eq, ◌==◌, ==_iff,
  if◌then◌else◌,
}
use ad_nope.Prelude.HashMap
use ad_nope.Prelude.HashMap.{HashMap}
use ad_nope.Prelude.Sort.{sort, place}
use ad_nope.Prelude.Text.{trim, trim_start, is_empty, starts_with, str_le, String-set}
use ad_nope.Prelude.Schedule.{completed, pick}
use ad_nope.Config.{Config, default_config}
use ad_nope.Config.Blocklists.{get_blocklists_sorted, get_blocklists_sorted-eq_of_perm}
use ad_nope.Engine.Matcher.{HashedMatcher, check, new}
use ad_nope.Engine.Matcher.Laws.{Answers, check-Answers}
use ad_nope.Engine.Blocklist.{
  Response, body, failed, line, broken, refresh, fetch_all, fetch_and_parse, parse_lines,
  parse_line, insert_lists, insert_entries, source_id_of,
}
use ad_nope.Engine.Blocklist.Refresh.{Listed, refresh-Listed, Listed-refresh, check-refresh_order}
use ad_nope.Engine.State
use ad_nope.Engine.State.{
  AppState, is_blocking_active, pause_blocking, get_pause_remaining_secs, active_at,
}
use ad_nope.Engine.State.Pause.{resume, run, IsDead, pause_overflow-IsDead}

abbrev ads : HashedMatcher
ads = record { domains = ("ads.com", 1) ∷ ("com", 2) ∷ []; allowlist = ("good.ads.com", tt) ∷ [] }

check-Answers_example :
    ((HashMap.get "x.ads.com" ads.allowlist ≡ some tt) × (check ads "x.ads.com" ≡ none))
    ⊎ ((HashMap.get "x.ads.com" ads.allowlist ≡ none)
        × Answers ads.domains "x.ads.com" (check ads "x.ads.com"))
check-Answers_example = check-Answers ads "x.ads.com"

abbrev two_lists : HashMap String String
two_lists = ("b", "http://b") ∷ ("a", "http://a") ∷ []

abbrev config : Config
config = record default_config { blocklists = two_lists }

abbrev lists : String → Response
lists url =
    if url == "http://a"
    then body (line "# ads" ∷ line " ads.com " ∷ [])
    else if url == "http://b"
    then body (line "ads.com" ∷ broken ∷ [])
    else failed

abbrev unchanged : String → String
unchanged s = s

abbrev swapped : HashMap String String
swapped = ("a", "http://a") ∷ ("b", "http://b") ∷ []

two_lists-Nodup : Nodup (map (λ (e : String × String). e.0) two_lists)
two_lists-Nodup = Nodup-cons.1 (
  λ m. absurd (false≢true ((==_iff "b" "a").1 ((mem-singleton String-set).0 m))),
  Nodup-cons.1 (λ m. not-mem-nil m, Pairwise.nil),
)

get_blocklists_sorted-eq_of_perm_example :
    get_blocklists_sorted two_lists ≡ get_blocklists_sorted swapped
get_blocklists_sorted-eq_of_perm_example =
    get_blocklists_sorted-eq_of_perm two_lists swapped two_lists-Nodup (Perm.swap _ _ _)

-- The list `a` completes last, and its number is kept.
ads_listed : HashMap.get "ads.com" (refresh unchanged lists (1 ∷ []) config).domains ≡ some 0
unfolding refresh fetch_all fetch_and_parse parse_lines parse_line trim trim_start is_empty
    starts_with get_blocklists_sorted sort place str_le insert_lists insert_entries HashMap.get
    HashMap.insert completed pick new source_id_of
ads_listed = refl

refresh-Listed_example : Listed unchanged lists config "ads.com" 0
refresh-Listed_example = refresh-Listed unchanged lists config (1 ∷ []) "ads.com" 0 ads_listed

Listed-refresh_example :
    (k : ℕ) × (HashMap.get "ads.com" (refresh unchanged lists [] config).domains ≡ some k)
Listed-refresh_example =
    Listed-refresh unchanged lists config [] "ads.com" 0
      (refresh-Listed unchanged lists config (1 ∷ []) "ads.com" 0 ads_listed)

check-refresh_order_example :
    (check (refresh unchanged lists [] config) "x.ads.com" ≡ none)
    ↔ (check (refresh unchanged lists (1 ∷ []) config) "x.ads.com" ≡ none)
check-refresh_order_example = check-refresh_order unchanged lists config [] (1 ∷ []) "x.ads.com"

pause_overflow-IsDead_example :
    ((pause_blocking 1000 State.new 5 2000).0 ≡ panics)
    × IsDead 1000 (run 1000 (pause_blocking 1000 State.new 5 2000).1 (resume ∷ []))
pause_overflow-IsDead_example =
    pause_overflow-IsDead 1000 State.new 5 2000 (resume ∷ []) (omega arith)
