-- ===== src/Engine/Blocklist/Sources.antt =====
-- Which domains `refresh` lists, and from which list.
use mathlib.Core.Path.{subst}
use ad_nope.Prelude.{
  ℕ, zero, suc, ◌+◌, ◌≡◌, refl, ap, sym, ◌∙◌, Option, none, some, List, [], ◌∷◌, String, ◌⊎◌, inl,
  inr, arith, Elem, here, there, get_elem?, Bool-cases, ==_iff, ◌==◌, string_eq,
}
use ad_nope.Prelude.HashMap
use ad_nope.Prelude.HashMap.{HashMap, get-insert}
use ad_nope.Engine.Blocklist.{
  LineRead, line, broken, Response, body, failed, insert_entries, insert_lists, source_id_of,
  push_domain, parse_line, parse_lines, fetch_and_parse, fetch_all,
}

-- What a map gains by insertions: an answer is an old one or an inserted one.
get-insert_entries :
    (d : String) (id : ℕ) (es : List (String × ℕ)) (m : HashMap String ℕ)
    → HashMap.get d (insert_entries es m) ≡ some id
    → Elem (d, id) es ⊎ (HashMap.get d m ≡ some id)
unfolding insert_entries
get-insert_entries d id [] m h = inr h
get-insert_entries d id ((j, v) ∷ es) m h =
    elim (get-insert_entries d id es (HashMap.insert j v m) h) [
      | inl e ↦ inl (there e)
      | inr k ↦ elim (Bool-cases (j == d)) [
        | inl same ↦ inl (here (ground (arith, get-insert j d v m, ==_iff j d)))
        | inr other ↦ inr (ground (arith, get-insert j d v m))
      ]
    ]

-- An inserted or old domain has an answer.
insert_entries-get :
    (d : String) (id : ℕ) (es : List (String × ℕ)) (m : HashMap String ℕ)
    → Elem (d, id) es ⊎ (HashMap.get d m ≡ some id)
    → (k : ℕ) × (HashMap.get d (insert_entries es m) ≡ some k)
unfolding insert_entries
insert_entries-get d id [] m (inr h) = (id, h)
insert_entries-get d id [] m (inl h) = elim h [ ]
insert_entries-get d id ((j, v) ∷ es) m (inl (here e)) =
    insert_entries-get d id es (HashMap.insert j v m)
      (inr (ground (arith, get-insert j d v m, ==_iff j d)))
insert_entries-get d id ((j, v) ∷ es) m (inl (there e)) =
    insert_entries-get d id es (HashMap.insert j v m) (inl e)
insert_entries-get d id ((j, v) ∷ es) m (inr h) = elim (Bool-cases (j == d)) [
  | inl same ↦
      insert_entries-get d v es (HashMap.insert j v m) (inr (ground (arith, get-insert j d v m)))
  | inr other ↦
      insert_entries-get d id es (HashMap.insert j v m) (inr (ground (arith, get-insert j d v m)))
]

abbrev pub InLists : String → ℕ → List (List (String × ℕ)) → Type 0
InLists d id lists = (es : List (String × ℕ)) × Elem es lists × Elem (d, id) es

pub get-insert_lists :
    (d : String) (id : ℕ) (lists : List (List (String × ℕ))) (m : HashMap String ℕ)
    → HashMap.get d (insert_lists lists m) ≡ some id
    → InLists d id lists ⊎ (HashMap.get d m ≡ some id)
unfolding insert_lists
get-insert_lists d id [] m h = inr h
get-insert_lists d id (es ∷ lists) m h =
    elim (get-insert_lists d id lists (insert_entries es m) h) [
      | inl (fs, i, e) ↦ inl (fs, there i, e)
      | inr k ↦ elim (get-insert_entries d id es m k) [
        | inl e ↦ inl (es, here refl, e)
        | inr old ↦ inr old
      ]
    ]

pub insert_lists-get :
    (d : String) (id : ℕ) (lists : List (List (String × ℕ))) (m : HashMap String ℕ)
    → InLists d id lists ⊎ (HashMap.get d m ≡ some id)
    → (k : ℕ) × (HashMap.get d (insert_lists lists m) ≡ some k)
unfolding insert_lists
insert_lists-get d id [] m (inr h) = (id, h)
insert_lists-get d id [] m (inl (fs, i, e)) = elim i [ ]
insert_lists-get d id (es ∷ lists) m (inl (fs, there i, e)) =
    insert_lists-get d id lists (insert_entries es m) (inl (fs, i, e))
insert_lists-get d id (es ∷ lists) m (inl (fs, here p, e)) =
    let (k, h) = insert_entries-get d id es m (inl (subst (Elem (d, id)) p e)) in
    insert_lists-get d k lists (insert_entries es m) (inr h)
insert_lists-get d id (es ∷ lists) m (inr h) =
    let (k, g) = insert_entries-get d id es m (inr h) in
    insert_lists-get d k lists (insert_entries es m) (inr g)

-- The lines that are read before the first failure.
abbrev pub readable : List LineRead → List String
readable [] = []
readable (line text ∷ rest) = text ∷ readable rest
readable (broken ∷ rest) = []

abbrev pub texts : Response → List String
texts (body lines) = readable lines
texts failed = []

module _ (to_lowercase : String → String) where
  -- A line of a list that names the domain.
  abbrev pub Names : List String → String → Type 0
  Names ts d = (text : String) × Elem text ts × (parse_line to_lowercase text ≡ some d)

  push_domain-Names :
      (source_id : ℕ) (text : String) (o : Option String) (es : List (String × ℕ)) (d : String)
      (id : ℕ)
      → parse_line to_lowercase text ≡ o
      → Elem (d, id) (push_domain source_id o es)
      → ((parse_line to_lowercase text ≡ some d) × (id ≡ source_id)) ⊎ Elem (d, id) es
  push_domain-Names source_id text none es d id e h = inr h
  push_domain-Names source_id text (some x) es d id e (there h) = inr h
  push_domain-Names source_id text (some x) es d id e (here p) =
      inl (e ∙ ap (λ (q : String × ℕ). some q.0) (sym p), ap (λ (q : String × ℕ). q.1) p)

  parse_lines-Names :
      (source_id : ℕ) (ls : List LineRead) (d : String) (id : ℕ)
      → Elem (d, id) (parse_lines to_lowercase source_id ls)
      → Names (readable ls) d × (id ≡ source_id)
  unfolding parse_lines
  parse_lines-Names source_id (line text ∷ rest) d id h =
      elim (push_domain-Names source_id text _ _ d id refl h) [
        | inl (e, p) ↦ ((text, here refl, e), p)
        | inr i ↦
            let ((t, at, e), p) = parse_lines-Names source_id rest d id i in ((t, there at, e), p)
      ]
  parse_lines-Names source_id [] d id h = elim h [ ]
  parse_lines-Names source_id (broken ∷ rest) d id h = elim h [ ]

  push_domain-Elem :
      (source_id : ℕ) (o : Option String) (es : List (String × ℕ)) (e : String × ℕ)
      → Elem e es
      → Elem e (push_domain source_id o es)
  push_domain-Elem source_id none es e h = h
  push_domain-Elem source_id (some x) es e h = there h

  Names-parse_lines :
      (source_id : ℕ) (ls : List LineRead) (d : String)
      → Names (readable ls) d
      → Elem (d, source_id) (parse_lines to_lowercase source_id ls)
  unfolding parse_lines
  Names-parse_lines source_id (line text ∷ rest) d (t, here p, e) =
      subst
        (λ o.
          Elem (d, source_id) (push_domain source_id o (parse_lines to_lowercase source_id rest)))
        (sym e ∙ ap (parse_line to_lowercase) p) (here refl)
  Names-parse_lines source_id (line text ∷ rest) d (t, there i, e) =
      push_domain-Elem source_id _ _ _ (Names-parse_lines source_id rest d (t, i, e))
  Names-parse_lines source_id [] d (t, i, e) = elim i [ ]
  Names-parse_lines source_id (broken ∷ rest) d (t, i, e) = elim i [ ]

  fetch_and_parse-Names :
      (r : Response) (source_id : ℕ) (d : String) (id : ℕ)
      → Elem (d, id) (fetch_and_parse to_lowercase r source_id)
      → Names (texts r) d × (id ≡ source_id)
  unfolding fetch_and_parse
  fetch_and_parse-Names (body ls) source_id d id h = parse_lines-Names source_id ls d id h
  fetch_and_parse-Names failed source_id d id h = elim h [ ]

  Names-fetch_and_parse :
      (r : Response) (source_id : ℕ) (d : String)
      → Names (texts r) d
      → Elem (d, source_id) (fetch_and_parse to_lowercase r source_id)
  unfolding fetch_and_parse
  Names-fetch_and_parse (body ls) source_id d h = Names-parse_lines source_id ls d h
  Names-fetch_and_parse failed source_id d (t, i, e) = elim i [ ]

  module _ (http : String → Response) where
    -- The list at `index` of `blocklists` names `d`; its sources are numbered from `from`.
    pub record Offers (from : ℕ) (blocklists : List (String × String)) (d : String) (id : ℕ)
        : Type 0 where
      pub index : ℕ
      pub entry : String × String
      pub at : get_elem? blocklists index ≡ some entry
      pub names : Names (texts (http entry.1)) d
      pub numbered : id ≡ source_id_of (from + index)

    pub InLists-Offers :
        (from : ℕ) (bl : List (String × String)) (d : String) (id : ℕ)
        → InLists d id (fetch_all to_lowercase http from bl)
        → Offers from bl d id
    unfolding fetch_all
    InLists-Offers from ((name, url) ∷ bl) d id (es, here p, i) =
        let (names, numbered) =
          fetch_and_parse-Names (http url) (source_id_of from) d id (subst (Elem (d, id)) p i) in
        record {
          index = 0;
          entry = (name, url);
          at = refl;
          names = names;
          numbered = numbered ∙ ap source_id_of (omega arith);
        }
    InLists-Offers from ((name, url) ∷ bl) d id (es, there l, i) =
        let o = InLists-Offers (from + 1) bl d id (es, l, i) in
        record {
          index = suc o.index;
          entry = o.entry;
          at = o.at;
          names = o.names;
          numbered = o.numbered ∙ ap source_id_of (omega arith);
        }
    InLists-Offers from [] d id (es, l, i) = elim l [ ]

    pub Offers-InLists :
        (from : ℕ) (bl : List (String × String)) (d : String) (id index : ℕ)
        (entry : String × String)
        → get_elem? bl index ≡ some entry
        → Names (texts (http entry.1)) d
        → id ≡ source_id_of (from + index)
        → InLists d id (fetch_all to_lowercase http from bl)
    unfolding fetch_all
    Offers-InLists from [] d id index entry at names numbered = cc
    Offers-InLists from ((name, url) ∷ bl) d id zero entry at names numbered =
        let p : entry.1 ≡ url = cc at in
        let q : id ≡ source_id_of from = numbered ∙ ap source_id_of (omega arith) in
        (
          _,
          here refl,
          subst (λ k. Elem (d, k) (fetch_and_parse to_lowercase (http url) (source_id_of from)))
              (sym q)
              (Names-fetch_and_parse (http url) (source_id_of from) d
                (subst (λ u. Names (texts (http u)) d) p names)),
        )
    Offers-InLists from ((name, url) ∷ bl) d id (suc index) entry at names numbered =
        let (es, l, i) =
          Offers-InLists (from + 1) bl d id index entry at names
            (numbered ∙ ap source_id_of (omega arith)) in
        (es, there l, i)
