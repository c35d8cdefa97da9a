-- ===== src/Engine/Blocklist/Refresh.antt =====
-- What a refresh of src/engine/blocklist_manager.rs blocks: the domains that the readable lines of
-- the configured lists name, whatever the order in which the downloads complete.
use mathlib.Core.Path.{subst}
use ad_nope.Prelude.{
  ℕ, ◌+◌, ◌≡◌, ◌↔◌, refl, ap, sym, ◌∙◌, none, some, List, [], String, inl, inr, min, arith,
  get_elem?, Option-cases, string_eq,
}
use ad_nope.Prelude.HashMap
use ad_nope.Prelude.HashMap.{HashMap}
use ad_nope.Prelude.Schedule.{Elem-completed, completed-Elem}
use ad_nope.Config.{Config}
use ad_nope.Config.Blocklists.{get_blocklists_sorted}
use ad_nope.Engine.Matcher.{new, check}
use ad_nope.Engine.Matcher.Laws.{Answers, check-Answers, check-allowed, check-unallowed}
use ad_nope.Engine.Matcher.Suffix.{Parent}
use ad_nope.Engine.Blocklist.{Response, source_id_of, refresh}
use ad_nope.Engine.Blocklist.Sources.{
  get-insert_lists, insert_lists-get, texts, Names, InLists-Offers, Offers-InLists,
}

source_id_of-min : (idx : ℕ) → source_id_of (0 + idx) ≡ min idx 255
unfolding source_id_of
source_id_of-min idx = ground arith

module _ (to_lowercase : String → String) (http : String → Response) (config : Config) where
  -- A readable line of the list at `index` of the sorted lists names the domain. The source is the
  -- index, or 255 past that.
  pub record Listed (d : String) (id : ℕ) : Type 0 where
    pub index : ℕ
    pub entry : String × String
    pub at : get_elem? (get_blocklists_sorted config.blocklists) index ≡ some entry
    pub names : Names to_lowercase (texts (http entry.1)) d
    pub numbered : id ≡ min index 255

  -- An entry of a refreshed matcher is named by a readable line of a configured list, and its source is
  -- the index of that list in the order of the names, or 255 past that.
  pub refresh-Listed :
      (schedule : List ℕ) (d : String) (id : ℕ)
      → HashMap.get d (refresh to_lowercase http schedule config).domains ≡ some id
      → Listed d id
  unfolding refresh new
  refresh-Listed schedule d id h = elim (get-insert_lists d id _ [] h) [
    | inl (es, l, i) ↦
        let o = InLists-Offers to_lowercase http 0 _ d id (es, Elem-completed es schedule _ l, i) in
        record {
          index = o.index;
          entry = o.entry;
          at = o.at;
          names = o.names;
          numbered = o.numbered ∙ source_id_of-min o.index;
        }
    | inr old ↦ cc (HashMap.get-nil {V = ℕ} d)
  ]

  -- A domain that a readable line of a configured list names has an entry after a refresh.
  pub Listed-refresh :
      (schedule : List ℕ) (d : String) (id : ℕ)
      → Listed d id
      → (k : ℕ) × (HashMap.get d (refresh to_lowercase http schedule config).domains ≡ some k)
  unfolding refresh new
  Listed-refresh schedule d id l =
      let (es, at, i) =
        Offers-InLists to_lowercase http 0 (get_blocklists_sorted config.blocklists) d id l.index
          l.entry l.at l.names (l.numbered ∙ sym (source_id_of-min l.index)) in
      insert_lists-get d id _ [] (inl (es, completed-Elem es schedule _ at, i))

  -- An answer after a refresh is the source of a list that names the name or a parent of it.
  pub check-Listed :
      (schedule : List ℕ) (name : String) (id : ℕ)
      → check (refresh to_lowercase http schedule config) name ≡ some id
      → (u : String) × Parent u name × Listed u id
  check-Listed schedule name id answered =
      let m = refresh to_lowercase http schedule config in
      elim (check-Answers m name) [
        | inl (_, refused) ↦ cc (sym refused ∙ answered)
        | inr (_, answer) ↦
            let (u, near) = subst (Answers m.domains name) answered answer in
            (u, near.parent, refresh-Listed schedule u id near.listed)
      ]

  same_allowlist :
      (s t : List ℕ)
      → (refresh to_lowercase http s config).allowlist
        ≡ (refresh to_lowercase http t config).allowlist
  unfolding refresh new
  same_allowlist s t = refl

  still_none :
      (s t : List ℕ) (d : String)
      → check (refresh to_lowercase http s config) d ≡ none
      → check (refresh to_lowercase http t config) d ≡ none
  still_none s t d h =
      let m = refresh to_lowercase http s config in
      let n = refresh to_lowercase http t config in
      elim (Option-cases (HashMap.get d n.allowlist)) [
        | inr (u, e) ↦ check-allowed n d u e
        | inl e ↦ elim (Option-cases (check n d)) [
          | inl p ↦ p
          | inr (id, p) ↦
              let (u, near) = subst (Answers n.domains d) p (check-unallowed n d e) in
              let (k, g) = Listed-refresh s u id (refresh-Listed t u id near.listed) in
              let allowed =
                ap (λ (a : HashMap String (Unit {0})). HashMap.get d a) (same_allowlist s t) in
              let gone = subst (Answers m.domains d) h (check-unallowed m d (allowed ∙ e)) in
              cc (gone u near.parent)
        ]
      ]

  -- Whether a domain is blocked after a refresh does not depend on the order in which the downloads
  -- complete.
  pub check-refresh_order :
      (s t : List ℕ) (d : String)
      → (check (refresh to_lowercase http s config) d ≡ none)
        ↔ (check (refresh to_lowercase http t config) d ≡ none)
  check-refresh_order s t d = (still_none s t d, still_none t s d)
