-- ===== src/MessageDefinitions/Loading.antt =====
-- What a load does to the cache: it keeps what the cache holds, the specification that it returns is
-- in the cache afterwards, and what it adds was built from a file of the package.
use co_bridge.Base.{
  String, List, Bool, true, false, Option, none, some, text_keys, ◌≡◌, refl, inl, inr, All, All-map,
  All-unit, Option-cases,
}
use mathlib.Core.Path.{subst}
use co_bridge.Base.Assoc.{find, emplace, find-emplace_old}
use co_bridge.Base.Errors.{What}
use co_bridge.Base.Action.{returned, gets, lift, ◌>>=◌, for_each}
use co_bridge.Base.Action.Yields.{
  Yields, OnReturn, OnReturn-self, Yields-bind, Yields-lift, Yields-throw, Yields-if,
  Yields-for_each, Yields-modify, OnReturn-map,
}
use co_bridge.MessageDefinitions.Sections.{◌+++◌, split_action_msg_definition}
use co_bridge.MessageDefinitions.Specs.{
  identifier_keys, MessageDefinitionFormat, msg, DefinitionIdentifier, MessageSpec, Packages,
  same_format, message_spec,
}
use co_bridge.MessageDefinitions.Cache.{
  Cache, or_throw, NotFound, name_only, action_definitions, read_definition, emplace_spec,
  emplace_action_spec, read_action_spec, store_contents, read_message_spec, from_cache, with_names,
  load_message_spec,
}

module _ (packages : Packages) where
  -- The contents are those of a file in the share directory of the package.
  pub record IsFileOf (package_name contents : String) : Type 0 where
    pub share_dir : String
    pub line : String
    pub shared : packages.share_directory package_name ≡ returned share_dir
    pub contents_of : packages.read_file (share_dir +++ "/" +++ line) ≡ some contents

OnReturn-or_throw :
    {A : Type 0} (o : Option A) (w : What) → OnReturn (λ a. o ≡ some a) (or_throw o w)
OnReturn-or_throw none w = tt
OnReturn-or_throw (some a) w = refl

module _ (packages : Packages) (P : Cache → Type 0) (Good : MessageSpec → Type 0)
    (grow : (id : DefinitionIdentifier) (spec : MessageSpec) (c : Cache)
      → Good spec
      → P c
      → P (emplace id spec c))
    (whole : (package_name contents : String)
      → IsFileOf packages package_name contents
      → (f : MessageDefinitionFormat) → Good (message_spec packages f contents package_name))
    (parts : (package_name contents goal result feedback : String)
      → IsFileOf packages package_name contents
      → split_action_msg_definition contents ≡ returned (goal, result, feedback)
      → (f : MessageDefinitionFormat)
      → All
          (λ (p : String × String). Good (message_spec packages f p.1 package_name))
          (action_definitions goal result feedback)) where
  file_of :
      (share_dir line : String) {package_name : String}
      → packages.share_directory package_name ≡ returned share_dir
      → (w : What)
      → OnReturn
          (λ contents. IsFileOf packages package_name contents)
          (or_throw (packages.read_file (share_dir +++ "/" +++ line)) w)
  file_of share_dir line {package_name} e w =
      OnReturn-map (λ c. packages.read_file (share_dir +++ "/" +++ line) ≡ some c)
        (IsFileOf packages package_name) _
        (λ contents r. record { share_dir = share_dir; line = line; shared = e; contents_of = r })
        (OnReturn-or_throw _ w)

  read_definition-Yields :
      (missing : NotFound) (package_name filename : String)
      → Yields P
          (λ _ contents. IsFileOf packages package_name contents)
          (read_definition packages missing package_name filename)
  unfolding read_definition
  read_definition-Yields missing package_name filename =
      Yields-bind _ _ _ _ (Yields-lift _ _ (OnReturn-self (packages.share_directory package_name)))
        λ share_dir e. Yields-bind _ _ _ _ (Yields-lift _ _ (OnReturn-or_throw _ _)) λ index u.
          Yields-bind _ _ _ _ (Yields-lift _ _ (OnReturn-or_throw _ _))
            λ line v. Yields-lift _ _ (file_of share_dir line e _)

  -- What the last lookup returns is what the cache holds.
  found-Yields :
      (id : DefinitionIdentifier) (w : What)
      → Yields P
          (λ c spec. find id c ≡ some spec)
          (gets (find id) >>= λ found. lift (or_throw found w))
  unfolding ◌>>=◌
  found-Yields id w = record { at = λ c p. (p, OnReturn-or_throw (find id c) w) }

  emplace_spec-Yields :
      (id : DefinitionIdentifier) (spec : MessageSpec)
      → Good spec
      → Yields P (λ c s. find id c ≡ some s) (emplace_spec packages id spec)
  unfolding emplace_spec
  emplace_spec-Yields id spec g =
      Yields-bind (λ _. Unit {0}) _ _ _ (Yields-modify _ (λ c p. grow id spec c g p))
        (λ _ _. found-Yields id _)

  emplace_all-Yields :
      (f : MessageDefinitionFormat) (package_name action_name : String)
      (ds : List (String × String))
      → All (λ (p : String × String). Good (message_spec packages f p.1 package_name)) ds
      → Yields P
          (λ _ _. Unit {0})
          (for_each ds (emplace_action_spec packages f package_name action_name))
  unfolding emplace_action_spec
  emplace_all-Yields f package_name action_name ds h =
      Yields-for_each ds (emplace_action_spec packages f package_name action_name) (
        All-map (λ (p : String × String). Good (message_spec packages f p.1 package_name))
          (λ p.
            Yields P (λ _ _. Unit {0}) (emplace_action_spec packages f package_name action_name p))
          ds (λ p g. Yields-modify _ (λ c k. grow _ _ c g k)) h)

  read_action_spec-Yields :
      (id : DefinitionIdentifier) (package_name action_name contents : String)
      → IsFileOf packages package_name contents
      → Yields P
          (λ c s. find id c ≡ some s)
          (read_action_spec packages id package_name action_name contents)
  unfolding read_action_spec
  read_action_spec-Yields id package_name action_name contents h =
      Yields-bind _ _ _ _ (Yields-lift _ _ (OnReturn-self (split_action_msg_definition contents)))
        λ (goal, result, feedback) e.
          Yields-bind (λ _. Unit {0}) _ _ _
            (emplace_all-Yields id.format package_name action_name _
              (parts package_name contents goal result feedback h e id.format))
            (λ _ _. found-Yields id _)

  store_contents-Yields :
      (is_action : Bool) (id : DefinitionIdentifier) (package_name action_name contents : String)
      → IsFileOf packages package_name contents
      → Yields P
          (λ c s. find id c ≡ some s)
          (store_contents packages is_action id package_name action_name contents)
  unfolding store_contents
  store_contents-Yields true id package_name action_name contents h =
      Yields-if _ (same_format id.format msg) _ _
        (read_action_spec-Yields id package_name action_name contents h) (Yields-throw _ _)
  store_contents-Yields false id package_name action_name contents h =
      emplace_spec-Yields id _ (whole package_name contents h id.format)

  read_message_spec-Yields :
      (id : DefinitionIdentifier) (names : String × String × String)
      → Yields P (λ c s. find id c ≡ some s) (read_message_spec packages id names)
  unfolding read_message_spec
  read_message_spec-Yields id (package_name, subfolder, type_name) =
      Yields-bind _ _ _ _ (read_definition-Yields (name_only id) package_name _)
        λ contents h. store_contents-Yields _ id package_name _ contents h

  named-Yields :
      (id : DefinitionIdentifier) (o : Option (String × String × String)) (c : Cache)
      → P c
      → P (with_names id o (read_message_spec packages id) c).1
        × OnReturn
            (λ s. find id (with_names id o (read_message_spec packages id) c).1 ≡ some s)
            (with_names id o (read_message_spec packages id) c).0
  unfolding with_names
  named-Yields id none c p = (p, tt)
  named-Yields id (some names) c p = (read_message_spec-Yields id names).at c p

  pub load_message_spec-Yields :
      (id : DefinitionIdentifier)
      → Yields P (λ c s. find id c ≡ some s) (load_message_spec packages id)
  unfolding load_message_spec from_cache
  load_message_spec-Yields id = record {
    at = λ c p. elim (Option-cases (find id c)) [
      | inl new ↦ rw new (named-Yields id (packages.match_type_name id.package_resource_name) c p)
      | inr (spec, old) ↦ rw old (p, old)
    ];
  }

-- What the cache holds, it holds after a load.
pub load_message_spec-keeps :
    (packages : Packages) (id k : DefinitionIdentifier) (spec : MessageSpec) (c : Cache)
    → find k c ≡ some spec
    → find k (load_message_spec packages id c).1 ≡ some spec
load_message_spec-keeps packages id k spec c h =
    ((load_message_spec-Yields packages (λ d. find k d ≡ some spec) (λ _. Unit)
        (λ j other d _ e. find-emplace_old k j spec other d e) (λ _ _ _ _. tt)
        (λ _ _ goal result feedback _ _ _. All-unit (action_definitions goal result feedback))
        id).at
      c h).0

-- A specification that a load returns is in the cache afterwards.
pub load_message_spec-stores :
    (packages : Packages) (id : DefinitionIdentifier) (spec : MessageSpec) (c : Cache)
    → (load_message_spec packages id c).0 ≡ returned spec
    → find id (load_message_spec packages id c).1 ≡ some spec
load_message_spec-stores packages id spec c h =
    subst (OnReturn (λ s. find id (load_message_spec packages id c).1 ≡ some s)) h
      ((load_message_spec-Yields packages (λ _. Unit) (λ _. Unit) (λ _ _ _ _ _. tt) (λ _ _ _ _. tt)
          (λ _ _ goal result feedback _ _ _. All-unit (action_definitions goal result feedback))
          id).at
        c tt).1

-- A load that returned a specification returns it again, from the cache and without a change, and so
-- it does after any other load.
pub load_message_spec_again :
    (packages : Packages) (id other : DefinitionIdentifier) (spec : MessageSpec) (c : Cache)
    → (load_message_spec packages id c).0 ≡ returned spec
    → (d : Cache) → d ≡ (load_message_spec packages other (load_message_spec packages id c).1).1
    → load_message_spec packages id d ≡ (returned spec, d)
unfolding load_message_spec from_cache
load_message_spec_again packages id other spec c h d e =
    let kept : find id d ≡ some spec = rw e (
      load_message_spec-keeps packages other id spec _
        (load_message_spec-stores packages id spec c h)) in
    rw kept refl
