-- ===== src/Ros1Bridge/Current.antt =====
-- Which services the ROS 1 nodelet advertises after update_advertised_services.
use co_bridge.Base.{
  ℕ, String, List, [], ◌∷◌, Bool, true, false, ◌||◌, ◌≡◌, refl, ap, ◌∙◌, inl, inr, Option, none,
  some, nat_keys, text_keys, contains, ◌==◌, ==_iff, Bool-cases, arith, All, if◌then◌else◌,
}
use co_bridge.Base.Assoc.{Assoc, Each, erase, emplace}
use co_bridge.Base.Assoc.Entries.{Each-emplace, Each_map}
use co_bridge.Base.Errors.{What, Exception}
use co_bridge.Base.Action.{pure, throw, ◌>>=◌}
use co_bridge.Base.Action.Yields.{
  Yields, Yields-bind, Yields-modify, Yields-gets, Yields-pure, Yields-throw, Yields-if,
  Yields-lift, Yields-try_catch,
}
use co_bridge.Server.Types.{ServiceWithoutId, ServerAction}
use co_bridge.Server.Environment.{Environment}
use co_bridge.Server.Channels.{add_services, remove_services}
use co_bridge.Server.Parameters.{what_of}
use co_bridge.Ros2Bridge.Topics.{erase_keys}
use co_bridge.Ros2Bridge.Services.{stale_services, has_service, with_service, store_services}
use co_bridge.Ros2Bridge.Latest.{OnReturn-unit}
use co_bridge.Ros1Bridge.State.{Nodelet, Master, on_server}
use co_bridge.Ros1Bridge.Services.{
  described, no_service, service_for, services_to_add, advertise_services,
  update_advertised_services,
}

module _ (names : List String) where
  -- A service of one of the names.
  abbrev pub IsCurrent : ServiceWithoutId → Type 0
  IsCurrent d = contains d.name names ≡ true

  abbrev pub AllCurrent : Assoc ℕ ServiceWithoutId → Type 0
  AllCurrent m = Each (λ id d. IsCurrent d) m

  -- An entry that goes with some ids, or stays.
  abbrev Goes : List ℕ → ℕ → ServiceWithoutId → Type 0
  Goes ids id d = (contains id ids || contains d.name names) ≡ true

  Goes-cons :
      (id : ℕ) (d : ServiceWithoutId) (ids : List ℕ) (m : Assoc ℕ ServiceWithoutId) (b : Bool)
      → contains d.name names ≡ b
      → Each (Goes ids) m
      → Each (Goes (if b then ids else id ∷ ids)) ((id, d) ∷ m)
  unfolding contains
  Goes-cons id d ids m true b rest = (ground arith, rest)
  Goes-cons id d ids m false b rest = (
    ground (arith, ==_iff id id),
    Each_map (Goes ids) (Goes (id ∷ ids)) m (λ k e h. ground arith) rest,
  )

  stale_services-Goes : (m : Assoc ℕ ServiceWithoutId) → Each (Goes (stale_services names m)) m
  unfolding stale_services
  stale_services-Goes [] = tt
  stale_services-Goes ((id, d) ∷ m) = Goes-cons id d _ m _ refl (stale_services-Goes m)

  erase-Goes :
      (k : ℕ) (ids : List ℕ) (m : Assoc ℕ ServiceWithoutId)
      → Each (Goes (k ∷ ids)) m
      → Each (Goes ids) (erase k m)
  unfolding erase contains
  erase-Goes k ids [] h = tt
  erase-Goes k ids ((j, d) ∷ m) h = elim (Bool-cases (k == j)) [
    | inl same ↦ rw same (erase-Goes k ids m h.1)
    | inr other ↦ rw other (ground (arith, h.0, ==_iff k j, ==_iff j k), erase-Goes k ids m h.1)
  ]

  erase_keys-AllCurrent :
      (ids : List ℕ) (m : Assoc ℕ ServiceWithoutId)
      → Each (Goes ids) m
      → AllCurrent (erase_keys ids m)
  unfolding erase_keys contains
  erase_keys-AllCurrent [] m h = Each_map (Goes []) (λ id d. IsCurrent d) m (λ k d e. e) h
  erase_keys-AllCurrent (k ∷ ids) m h = erase_keys-AllCurrent ids (erase k m) (erase-Goes k ids m h)

  store_services-AllCurrent :
      (ids : List ℕ) (ds : List ServiceWithoutId) (m : Assoc ℕ ServiceWithoutId)
      → All IsCurrent ds
      → AllCurrent m
      → AllCurrent (store_services ids ds m)
  unfolding store_services
  store_services-AllCurrent (id ∷ ids) (d ∷ ds) m h k =
      store_services-AllCurrent ids ds (emplace id d m) h.1
        (Each-emplace (λ i e. IsCurrent e) id d m k h.0)
  store_services-AllCurrent [] ds m h k = k
  store_services-AllCurrent (id ∷ ids) [] m h k = k

-- A service that was made for a name has it.
abbrev Fits : String → Option ServiceWithoutId → Type 0
Fits name none = Unit
Fits name (some d) = d.name ≡ name

described-name :
    (name service_type : String) (o : Option (String × String))
    → (described name service_type o).name ≡ name
described-name name service_type none = refl
described-name name service_type (some d) = refl

described-Fits :
    (name service_type : String) (o : Option (String × String))
    → Fits name (some (described name service_type o))
described-Fits name service_type none = refl
described-Fits name service_type (some d) = refl

with_service-AllCurrent :
    (names : List String) (name : String) (o : Option ServiceWithoutId) (ds : List ServiceWithoutId)
    → contains name names ≡ true
    → Fits name o
    → All (IsCurrent names) ds
    → All (IsCurrent names) (with_service o ds)
with_service-AllCurrent names name none ds h f k = k
with_service-AllCurrent names name (some d) ds h f k = (ap (λ n. contains n names) f ∙ h, k)

contains_self :
    (names rest : List String)
    → ((n : String) → contains n rest ≡ true → contains n names ≡ true)
    → All (λ n. contains n names ≡ true) rest
unfolding contains
contains_self names [] h = tt
contains_self names (n ∷ rest) h =
    (h n (rw ((==_iff n n).1 refl) refl), contains_self names rest (λ m k. h m (ground arith)))

module _ (env : Environment) (master : Master) (names : List String) where
  abbrev Current : Nodelet → Type 0
  Current s = AllCurrent names s.advertised_services

  on_server-Yields :
      {A : Type 0} (m : ServerAction A) → Yields Current (λ _ _. Unit {0}) (on_server m)
  unfolding on_server
  on_server-Yields m = record { at = λ s h. (h, OnReturn-unit (m s.server).0) }

  no_service-Yields :
      (name : String) (x : Exception) → Yields Current (λ _. Fits name) (no_service x)
  no_service-Yields name x = go (what_of x)
    where
      go :
          (o : Option What)
          → Yields Current (λ _. Fits name) (elim o [ none ↦ throw x | some w ↦ pure none ])
      go none = Yields-throw _ x
      go (some w) = Yields-pure (Fits name) none tt

  service_for-Yields :
      (name : String) → Yields Current (λ _. Fits name) (service_for env master name)
  unfolding service_for
  service_for-Yields name =
      Yields-try_catch (Fits name) _ _
        (Yields-bind (λ _. Unit {0}) _ _ _ (Yields-gets _)
          λ answer _.
            Yields-bind (λ _. Unit {0}) _ _ _
              (Yields-lift (λ _. Unit) answer (OnReturn-unit answer))
              λ service_type _.
                Yields-bind (λ _. Unit {0}) _ _ _ (Yields-lift (λ _. Unit) _ (OnReturn-unit _))
                  λ description _.
                    Yields-pure (Fits name) (some (described name service_type description))
                      (described-Fits name service_type description))
        (no_service-Yields name)

  services_to_add-Yields :
      (advertised : Assoc ℕ ServiceWithoutId) (rest : List String)
      → All (λ n. contains n names ≡ true) rest
      → Yields Current (λ _. All (IsCurrent names)) (services_to_add env master advertised rest)
  unfolding services_to_add
  services_to_add-Yields advertised [] h = Yields-pure _ [] tt
  services_to_add-Yields advertised (n ∷ ns) h =
      let others = services_to_add-Yields advertised ns h.1 in
      Yields-if _ (has_service n advertised) _ _ others (
        Yields-bind (Fits n) _ _ _ (service_for-Yields n) λ o f.
          Yields-bind (All (IsCurrent names)) _ _ _ others λ ds k.
            Yields-pure (All (IsCurrent names)) _ (with_service-AllCurrent names n o ds h.0 f k))

  advertise_services-Yields :
      (stale : List ℕ)
      → Yields Current (λ _ _. Unit {0}) (advertise_services env master names stale)
  unfolding advertise_services
  advertise_services-Yields stale =
      Yields-bind (λ _. Unit {0}) _ _ _ (on_server-Yields (remove_services env stale))
        λ _ _.
          Yields-bind (λ _. Unit {0}) _ _ _ (Yields-gets _)
            λ advertised _.
              Yields-bind (All (IsCurrent names)) _ _ _
                (services_to_add-Yields advertised names (contains_self names names (λ n k. k)))
                λ ds k.
                  Yields-bind (λ _. Unit {0}) _ _ _ (on_server-Yields (add_services env ds))
                    λ ids _.
                      Yields-modify _
                        λ t h. store_services-AllCurrent names ids ds t.advertised_services k h

  -- update_advertised_services leaves only services of the names that it is given, also where it throws.
  pub update_advertised_services-AllCurrent :
      (s : Nodelet)
      → AllCurrent names (update_advertised_services env master names s).1.advertised_services
  unfolding update_advertised_services ◌>>=◌
  update_advertised_services-AllCurrent s =
      let stale = stale_services names s.advertised_services in
      ((advertise_services-Yields stale).at _ (
        erase_keys-AllCurrent names stale s.advertised_services
          (stale_services-Goes names s.advertised_services))).0
