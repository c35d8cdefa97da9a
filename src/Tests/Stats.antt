-- ===== src/Tests/Stats.antt =====
-- The theorems on the counters, at concrete inputs.
use ad_nope.Prelude.{ℕ, min, ◌≡◌, List, [], ◌∷◌, String, length, arith}
use ad_nope.Prelude.HashMap.{HashMap}
use ad_nope.Net.{v4}
use ad_nope.Stats.{TopItem, get_top_k}
use ad_nope.Stats
use ad_nope.Stats.TopK.{IsTop, items_of, get_top_k-IsTop}
use ad_nope.Stats.Events.{
  Event, query, blocked, latency, blocked_by, domain_query, client_query, apply_all,
}
use ad_nope.Stats.Counters.{CountsEvents, apply_all-CountsEvents}
use ad_nope.Stats.SourceCounts.{IsShared, apply_all-IsShared, new-IsShared}

abbrev text : String → String
text s = s

abbrev counts : HashMap String ℕ
counts = ("a.com", 3) ∷ ("b.com", 7) ∷ ("c.com", 5) ∷ []

get_top_k-IsTop_example :
    (length (get_top_k text counts 2) ≡ min 2 (length counts))
    × ((rest : List TopItem) × IsTop (items_of text counts) (get_top_k text counts 2) rest)
get_top_k-IsTop_example = get_top_k-IsTop text counts 2

abbrev events : List Event
events =
    query
    ∷ client_query (v4 1)
    ∷ domain_query "a.com"
    ∷ blocked_by 3
    ∷ latency 1 20
    ∷ blocked
    ∷ query
    ∷ []

abbrev valid_events : List Event
valid_events = query ∷ client_query (v4 1) ∷ domain_query "a.com" ∷ blocked_by 3 ∷ query ∷ []

apply_all-CountsEvents_example :
    CountsEvents events (apply_all (Stats.new 0 60 ("u" ∷ []) ("l" ∷ [])) events)
apply_all-CountsEvents_example = apply_all-CountsEvents 0 60 ("u" ∷ []) ("l" ∷ []) events

apply_all-IsShared_example : IsShared (apply_all (Stats.new 0 60 [] []) valid_events)
apply_all-IsShared_example =
    apply_all-IsShared valid_events (Stats.new 0 60 [] []) (tt, (tt, (tt, (omega arith, (tt, tt)))))
      (new-IsShared 0 60 [] [])
