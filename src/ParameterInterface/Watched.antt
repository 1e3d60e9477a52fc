-- ===== src/ParameterInterface/Watched.antt =====
-- The nodes whose parameters are subscribed to are those with a subscription to their events.
use co_bridge.Base.{
  String, List, [], ◌∷◌, Bool, true, false, not, ◌&&◌, Option, none, some, text_keys, ◌==◌, ◌≡◌,
  refl, sym, ap, subst, ◌∙◌, inl, inr, Bool-cases, is_empty, contains, remove, if◌then◌else◌,
}
use co_bridge.Base.Assoc.{
  find, has_key, erase, update, has_key-find, has_key-erase, has_key-update, find-erase,
  find-update, is_some,
}
use co_bridge.Base.Action.{returned, pure, throw, ◌>>=◌}
use co_bridge.ParameterInterface.Names.{get_node_and_param_name}
use co_bridge.ParameterInterface.State.{Interface, Ending, finished, undefined}
use co_bridge.ParameterInterface.Watching.{write_names, unmark, unsubscribe_param}

abbrev pub IsNamed : Option (List String) → Type 0
IsNamed none = Unit
IsNamed (some names) = is_empty names ≡ false

-- A node has some name that is subscribed to if and only if there is a subscription to its events.
pub record IsWatched (s : Interface) : Type 0 where
  pub watched :
      (n : String) → has_key n s.subscribed_params_by_node ≡ has_key n s.param_subscriptions_by_node
  pub named : (n : String) → IsNamed (find n s.subscribed_params_by_node)

pub IsNamed-if :
    (b : Bool) (o p : Option (List String)) → IsNamed o → IsNamed p → IsNamed (if b then o else p)
IsNamed-if true o p h k = h
IsNamed-if false o p h k = k

pub IsNamed-map :
    (f : List String → List String) (o : Option (List String))
    → ((names : List String) → is_empty (f names) ≡ false)
    → IsNamed (elim o [ none ↦ none | some v ↦ some (f v) ])
IsNamed-map f none h = tt
IsNamed-map f (some names) h = h names

-- Whether unsubscribing a name is defined, by the names of its node.
abbrev pub can_unmark : String → Option (List String) → Bool
can_unmark param none = true
can_unmark param (some names) = contains param names

abbrev pub ending_of : Bool → Ending
ending_of true = finished
ending_of false = undefined

module _ (node : String) (s : Interface) (h : IsWatched s) where
  without_node : Interface
  without_node = record s {
    subscribed_params_by_node = erase node s.subscribed_params_by_node;
    param_subscriptions_by_node = erase node s.param_subscriptions_by_node;
  }

  without_node-IsWatched : IsWatched without_node
  unfolding without_node
  without_node-IsWatched = record {
    watched = λ n.
        has_key-erase n node s.subscribed_params_by_node
        ∙ ap (λ b. not (n == node) && b) (h.watched n)
        ∙ sym (has_key-erase n node s.param_subscriptions_by_node);
    named = λ n.
        subst IsNamed (sym (find-erase n node s.subscribed_params_by_node))
          (IsNamed-if (n == node) none _ tt (h.named n));
  }

  with_names : List String → Interface
  with_names names = record s {
    subscribed_params_by_node = update node (λ old. names) s.subscribed_params_by_node;
  }

  with_names-IsWatched :
      (names : List String) → is_empty names ≡ false → IsWatched (with_names names)
  unfolding with_names
  with_names-IsWatched names e = record {
    watched = λ n. has_key-update n node _ s.subscribed_params_by_node ∙ h.watched n;
    named = λ n.
        subst IsNamed (sym (find-update n node (λ old. names) s.subscribed_params_by_node)) (
          IsNamed-if (n == node) _ _
            (IsNamed-map (λ old. names) (find n s.subscribed_params_by_node) (λ old. e))
            (h.named n));
  }

  write_names-IsWatched :
      (names : List String)
      → has_key node s.subscribed_params_by_node ≡ true
      → ((write_names node names s).0 ≡ returned finished) × IsWatched (write_names node names s).1
  unfolding write_names ◌>>=◌ without_node with_names
  write_names-IsWatched [] k = rw (sym (h.watched node) ∙ k) (refl, without_node-IsWatched)
  write_names-IsWatched (x ∷ xs) k = (refl, with_names-IsWatched (x ∷ xs) refl)

unmark-IsWatched :
    (node param : String) (s : Interface) (o : Option (List String))
    → IsWatched s
    → find node s.subscribed_params_by_node ≡ o
    → ((unmark node param o s).0 ≡ returned (ending_of (can_unmark param o)))
      × IsWatched (unmark node param o s).1
unfolding unmark pure throw
unmark-IsWatched node param s none h e = (refl, h)
unmark-IsWatched node param s (some names) h e =
    let k = has_key-find node s.subscribed_params_by_node ∙ ap is_some e in
    elim (Bool-cases (contains param names)) [
      | inl b ↦ rw b (write_names-IsWatched node s h (remove param names) k)
      | inr b ↦ rw b (refl, h)
    ]

-- Unsubscribing a name keeps it so that exactly the nodes with names that are subscribed to have a subscription
-- to their events. It comes to its end if the name is subscribed to or nothing is at its node; for any other name it has no
-- defined behaviour.
pub unsubscribe_param-IsWatched :
    (name : String) (s : Interface)
    → IsWatched s
    → let (node, param) = get_node_and_param_name name in
      ((unsubscribe_param name s).0
        ≡ returned (ending_of (can_unmark param (find node s.subscribed_params_by_node))))
      × IsWatched (unsubscribe_param name s).1
unfolding unsubscribe_param ◌>>=◌
unsubscribe_param-IsWatched name s h =
    let (node, param) = get_node_and_param_name name in
    unmark-IsWatched node param s (find node s.subscribed_params_by_node) h refl
