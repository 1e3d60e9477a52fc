-- ===== src/Server/Graph/Diff.antt =====
-- What a client that applies the graph updates knows, against the graph of the server.
use co_bridge.Base.{
  String, List, [], ◌∷◌, ◌++◌, ◌≡◌, refl, ap, Bool, true, false, not, ◌&&◌, ◌||◌, Option, none,
  some, if◌then◌else◌, text_keys, contains, contains-append, contains-copy_if, contains-insert_all,
  insert_all, copy_if, length, nat_eq_iff, ◌==◌, ==_iff, ==_refl, arith, Bool-cases, Option-cases,
  inl, inr,
}
use co_bridge.Base.Assoc.{find, has_key, has_key-find, Distinct, is_some}
use co_bridge.Server.Types.{MapOfSets, ConnectionGraph}
use co_bridge.Server.Graph.{
  all_in, same_set, differs_from, changed_entries, names_of, removed_names, graph_diff,
}

-- The ids that a client has for a name, when it had `known` and gets an update.
unfoldable pub applied : MapOfSets → List String → MapOfSets → String → Option (List String)
applied changed removed known name =
    if contains name removed
    then none
    else elim (find name changed) [ none ↦ find name known | some ids ↦ some ids ]

-- Both have no entry, or sets of ids that are equal.
unfoldable pub same_entry : Option (List String) → Option (List String) → Bool
same_entry none none = true
same_entry none (some ys) = false
same_entry (some xs) none = false
same_entry (some xs) (some ys) = same_set xs ys

all_in_more : (ws zs : List String) (z : String) → all_in ws zs ≡ true → all_in ws (z ∷ zs) ≡ true
unfolding all_in contains
all_in_more [] zs z h = refl
all_in_more (w ∷ ws) zs z h = ground (arith, all_in_more ws zs z)

all_in_itself : (ws : List String) → all_in ws ws ≡ true
unfolding all_in contains
all_in_itself [] = refl
all_in_itself (w ∷ ws) = rw (==_refl w, all_in_more ws ws w (all_in_itself ws)) refl

same_set_refl : (ws : List String) → same_set ws ws ≡ true
unfolding same_set
same_set_refl ws = rw (all_in_itself ws) (ground (arith, nat_eq_iff (length ws) (length ws)))

contains-names_of : (n : String) (m : MapOfSets) → contains n (names_of m) ≡ has_key n m
unfolding contains names_of has_key
contains-names_of n [] = refl
contains-names_of n ((j, v) ∷ m) = ground (arith, contains-names_of n m)

contains-removed_names :
    (n : String) (known current : List String)
    → contains n (removed_names known current) ≡ (not (contains n current) && contains n known)
unfolding removed_names
contains-removed_names n known current =
    rw
      (
        contains-copy_if (λ w. not (contains w current)) n (insert_all known []),
        contains-insert_all n known [],
      )
      (unfold contains in ground arith)

find_absent :
    (k : String) (p : String × List String → Bool) (m : MapOfSets)
    → has_key k m ≡ false
    → find k (copy_if p m) ≡ none
unfolding find copy_if has_key
find_absent k p [] h = refl
find_absent k p ((j, v) ∷ m) h = ground (arith, find_absent k p m)

find-copy_if :
    (k : String) (p : String × List String → Bool) (m : MapOfSets)
    → Distinct m
    → find k (copy_if p m)
      ≡ elim (find k m) [ none ↦ none | some v ↦ if p (k, v) then some v else none ]
unfolding find copy_if
find-copy_if k p [] d = refl
find-copy_if k p ((j, v) ∷ m) (new, d) = elim (Bool-cases (k == j)) [
  | inr other ↦ rw other (ground (arith, find-copy_if k p m d))
  | inl this ↦
      let absent : has_key k m ≡ false = rw ((==_iff k j).0 this) new in
      let key : p (k, v) ≡ p (j, v) = ap (λ i. p (i, v)) ((==_iff k j).0 this) in
      rw this (ground (arith, find_absent k p m absent))
]

find_of-has_key : (k : String) (m : MapOfSets) → has_key k m ≡ false → find k m ≡ none
find_of-has_key k m h = elim (Option-cases (find k m)) [
  | inl e ↦ e
  | inr (v, e) ↦ absurd (ground (arith, has_key-find k m, ap is_some e))
]

unchanged :
    (old : MapOfSets) (name : String) (ids : List String)
    → differs_from old (name, ids) ≡ false
    → same_entry (find name old) (some ids) ≡ true
unfolding differs_from same_entry
unchanged old name ids same = elim (Option-cases (find name old)) [
  | inl absent ↦ absurd (ground (arith, rw (absent, differs_from) at same))
  | inr (olds, present) ↦
      let same' : not (same_set olds ids) ≡ false = rw (present, differs_from) at same in
      rw present (ground arith)
]

-- An update whose list of removed names is right for a name is right for it.
applied_right :
    (old new : MapOfSets) (removed : List String) (name : String)
    → Distinct new
    → (contains name removed ≡ true → has_key name new ≡ false)
    → (has_key name old ≡ true → has_key name new ≡ false → contains name removed ≡ true)
    → same_entry (applied (changed_entries old new) removed old name) (find name new) ≡ true
unfolding applied changed_entries same_entry
applied_right old new removed name d gone told = elim (Bool-cases (contains name removed)) [
  | inl e ↦ rw (e, find_of-has_key name new (gone e)) refl
  | inr e ↦
      rw (e, find-copy_if name (differs_from old) new d)
        (elim (Option-cases (find name new)) [
          | inl absent ↦
              let new_absent : has_key name new ≡ false = rw (has_key-find name new, absent) refl in
              let old_absent : find name old ≡ none =
                find_of-has_key name old (ground (arith, e, new_absent, told)) in
              rw (absent, old_absent) refl
          | inr (ids, present) ↦ rw present (elim (Bool-cases (differs_from old (name, ids))) [
            | inl differs ↦ rw differs (same_set_refl ids)
            | inr same ↦ rw same (unchanged old name ids same)
          ])
        ])
]

module _ (old : ConnectionGraph) (published subscribed services : MapOfSets) (name : String) where
  -- A client that has the services of the old graph and applies the update has the services of the
  -- new one, at every name: the same entry, with equal sets of ids. No service stands twice in the
  -- new graph.
  pub graph_diff-services :
      Distinct services
      → let u = graph_diff old published subscribed services in
        same_entry
          (applied u.advertised_services u.removed_services old.advertised_services name)
          (find name services)
        ≡ true
  unfolding graph_diff
  graph_diff-services d =
      let r = contains-removed_names name (names_of old.advertised_services) (names_of services) in
      let o = contains-names_of name old.advertised_services in
      let n = contains-names_of name services in
      applied_right old.advertised_services services _ name d (λ h. ground arith)
        (λ h k. ground arith)

  removed_topic : contains name (graph_diff old published subscribed services).removed_topics ≡ (
      not (has_key name published || has_key name subscribed)
      && (has_key name old.published_topics || has_key name old.subscribed_topics))
  unfolding graph_diff
  removed_topic =
      rw
        (
          contains-removed_names name
              (names_of old.published_topics ++ names_of old.subscribed_topics)
              (names_of published ++ names_of subscribed),
          contains-append name (names_of published) (names_of subscribed),
          contains-append name (names_of old.published_topics) (names_of old.subscribed_topics),
          contains-names_of name published,
          contains-names_of name subscribed,
          contains-names_of name old.published_topics,
          contains-names_of name old.subscribed_topics,
        )
        refl

  -- A client that has the published topics of the old graph and applies the update has those of the
  -- new one, at every name that is published or that nobody subscribes to in the new graph. No topic
  -- stands twice in the new map of published topics.
  pub graph_diff-published :
      Distinct published
      → (has_key name published || not (has_key name subscribed)) ≡ true
      → let u = graph_diff old published subscribed services in
        same_entry
          (applied u.published_topics u.removed_topics old.published_topics name)
          (find name published)
        ≡ true
  graph_diff-published d seen =
      let r = removed_topic in
      unfold graph_diff in
      applied_right old.published_topics published _ name d (λ h. ground (arith, seen, r))
        (λ h k. ground (arith, seen, r))

  -- At a name that is not published and still subscribed to in the new graph, the update changes
  -- nothing: a client that applies it keeps the old publishers.
  pub graph_diff-stale :
      has_key name published ≡ false
      → has_key name subscribed ≡ true
      → let u = graph_diff old published subscribed services in
        applied u.published_topics u.removed_topics old.published_topics name
        ≡ find name old.published_topics
  unfolding applied
  graph_diff-stale p q =
      rw (removed_topic, p, q)
        (unfold graph_diff changed_entries in
          rw (find_absent name (differs_from old.published_topics) published p) refl)
