-- ===== src/Core/Locations/Caching.antt =====
-- backend/telemetry_core/src/find_location.rs: the answers are right, whatever the cache holds and in
-- whatever order the tasks run.
use substrate_telemetry.Prelude.{
  ℕ, ◌≡◌, ◌≢◌, refl, sym, ap, ◌∙◌, inl, inr, subst, ite, if_pos, if_neg, true, is_some, Option,
  none, some, and_then, Option-cases, Text,
}
use substrate_telemetry.Prelude.HashMap
use substrate_telemetry.Prelude.HashMap.{HashMap, get-insert}
use substrate_telemetry.Common.InternalMessages.{IpAddr, addr_key}
use substrate_telemetry.Common.NodeTypes.{NodeLocation, Location}
use substrate_telemetry.Core.Locations.{
  City, Place, Reader, Cache, localhost, berlin, default_cache, location_of, found, Stage, reading,
  looking_up, located, cached,
}

-- The database has an entry for the address, with all that a location needs.
pub record Listed (reader : Reader) (ip : IpAddr) : Type 0 where
  pub city : City
  pub name : Text
  pub place : Place
  pub latitude : ℕ
  pub longitude : ℕ
  pub found_city : reader.lookup ip ≡ some city
  pub has_name : city.name ≡ some name
  pub has_place : city.place ≡ some place
  pub has_latitude : place.latitude ≡ some latitude
  pub has_longitude : place.longitude ≡ some longitude

-- Where an address is: localhost is in Berlin, any other address is where the database has it, or
-- nowhere.
pub data IsAt (reader : Reader) : IpAddr → Location → Type 0 where
  home :
      IsAt reader localhost
        (some (record { latitude = 1112674577; longitude = 1096181350; city = berlin }))
  listed :
      (ip : IpAddr)
      → ip ≢ localhost
      → (entry : Listed reader ip)
      → IsAt reader ip (
          some (record {
            latitude = reader.as_f32 entry.latitude;
            longitude = reader.as_f32 entry.longitude;
            city = entry.name;
          }))
  unlisted : (ip : IpAddr) → ip ≢ localhost → ¬ Listed reader ip → IsAt reader ip none

module _ (reader : Reader) where
  pub looked_up-IsAt :
      (ip : IpAddr)
      → ip ≢ localhost
      → IsAt reader ip (and_then (reader.lookup ip) (location_of reader))
  unfolding location_of
  looked_up-IsAt ip away = elim (Option-cases (reader.lookup ip)) [
    | inl e ↦ rw e (unlisted ip away (λ l. let f = l.found_city in cc))
    | inr (city, e) ↦ rw e (elim (Option-cases city.name) [
      | inl e1 ↦ rw e1 (unlisted ip away (λ l. absurd (no_name ip city l e e1)))
      | inr (name, e1) ↦ rw e1 (elim (Option-cases city.place) [
        | inl e2 ↦ rw e2 (unlisted ip away (λ l. absurd (no_place ip city l e e2)))
        | inr (place, e2) ↦ rw e2 (elim (Option-cases place.latitude) [
          | inl e3 ↦ rw e3 (unlisted ip away (λ l. absurd (no_latitude ip city place l e e2 e3)))
          | inr (latitude, e3) ↦ rw e3 (elim (Option-cases place.longitude) [
            | inl e4 ↦ rw e4 (unlisted ip away (λ l. absurd (no_longitude ip city place l e e2 e4)))
            | inr (longitude, e4) ↦ rw e4 (
                listed ip away (record {
                  city = city;
                  name = name;
                  place = place;
                  latitude = latitude;
                  longitude = longitude;
                  found_city = e;
                  has_name = e1;
                  has_place = e2;
                  has_latitude = e3;
                  has_longitude = e4;
                }))
          ])
        ])
      ])
    ])
  ]
    where
      city_of : Option City → Option Text
      city_of o = and_then o (λ c. c.name)

      place_of : Option City → Option Place
      place_of o = and_then o (λ c. c.place)

      no_name :
          (ip : IpAddr) (city : City)
          → (l : Listed reader ip) → reader.lookup ip ≡ some city
          → city.name ≡ none
          → ⊥
      no_name ip city l e e1 = let a = ap city_of (sym e ∙ l.found_city) in let b = l.has_name in cc

      no_place :
          (ip : IpAddr) (city : City)
          → (l : Listed reader ip) → reader.lookup ip ≡ some city
          → city.place ≡ none
          → ⊥
      no_place ip city l e e1 =
          let a = ap place_of (sym e ∙ l.found_city) in let b = l.has_place in cc

      no_latitude :
          (ip : IpAddr) (city : City) (place : Place)
          → (l : Listed reader ip) → reader.lookup ip ≡ some city
          → city.place ≡ some place
          → place.latitude ≡ none
          → ⊥
      no_latitude ip city place l e e1 e2 =
          let a = ap place_of (sym e ∙ l.found_city) in
          let b = ap (λ o. and_then o (λ (p : Place). p.latitude)) (sym e1 ∙ a ∙ l.has_place) in
          let c = l.has_latitude in cc

      no_longitude :
          (ip : IpAddr) (city : City) (place : Place)
          → (l : Listed reader ip) → reader.lookup ip ≡ some city
          → city.place ≡ some place
          → place.longitude ≡ none
          → ⊥
      no_longitude ip city place l e e1 e2 =
          let a = ap place_of (sym e ∙ l.found_city) in
          let b = ap (λ o. and_then o (λ (p : Place). p.longitude)) (sym e1 ∙ a ∙ l.has_place) in
          let c = l.has_longitude in cc

  -- The cache has only true locations, and that of localhost.
  pub record IsSound (cache : Cache) : Type 0 where
    pub entries :
        (ip : IpAddr) (location : NodeLocation)
        → HashMap.get ip cache ≡ some location
        → IsAt reader ip (some location)
    pub has_home : is_some (HashMap.get localhost cache) ≡ true

  -- What a task knows; localhost is never looked up.
  unfoldable pub Knows : IpAddr → Stage → Type 0
  Knows ip reading = Unit
  Knows ip looking_up = ip ≢ localhost
  Knows ip (located location) = IsAt reader ip location

  pub cached-Knows :
      (ip : IpAddr) (cache : Cache) → IsSound cache → Knows ip (cached (HashMap.get ip cache))
  unfolding Knows cached
  cached-Knows ip cache h = elim (Option-cases (HashMap.get ip cache)) [
    | inl e ↦ rw e (λ p.
        let there = subst (λ k. is_some (HashMap.get k cache) ≡ true) (sym p) h.has_home in cc)
    | inr (location, e) ↦ rw e (h.entries ip location e)
  ]

  insert-IsSound :
      (ip : IpAddr) (location : NodeLocation) (cache : Cache)
      → IsSound cache
      → IsAt reader ip (some location)
      → IsSound (HashMap.insert ip location cache)
  insert-IsSound ip location cache h at =
      let entry : (j : IpAddr)
          → HashMap.get j (HashMap.insert ip location cache)
            ≡ ite (addr_key.dec ip j) (some location) (HashMap.get j cache) =
        λ j. get-insert ip j location cache in
      record {
        entries = λ j other e. elim (addr_key.dec ip j) [
          | yes p ↦
              let same =
                sym (entry j ∙ if_pos (addr_key.dec ip j) p (some location) (HashMap.get j cache))
                ∙ e in
              subst (λ k. IsAt reader k (some other)) p (subst (IsAt reader ip) same at)
          | no n ↦ h.entries j other (
              sym (entry j ∙ if_neg (addr_key.dec ip j) n (some location) (HashMap.get j cache))
              ∙ e)
        ];
        has_home = elim (addr_key.dec ip localhost) [
          | yes p ↦ ap is_some (
              entry localhost
              ∙ if_pos (addr_key.dec ip localhost) p (some location) (HashMap.get localhost cache))
          | no n ↦
              ap is_some (
                entry localhost
                ∙ if_neg (addr_key.dec ip localhost) n (some location)
                    (HashMap.get localhost cache))
              ∙ h.has_home
        ];
      }

  pub found-IsSound :
      (ip : IpAddr) (location : Location) (cache : Cache)
      → IsSound cache
      → IsAt reader ip location
      → IsSound (found ip location cache).0 × IsAt reader ip (found ip location cache).1
  unfolding found
  found-IsSound ip none cache h at = (h, at)
  found-IsSound ip (some location) cache h at = (insert-IsSound ip location cache h at, at)

  pub default_cache-IsSound : IsSound default_cache
  unfolding default_cache HashMap.get
  default_cache-IsSound = record {
    entries = λ ip location e. elim (addr_key.dec localhost ip) [
      | yes p ↦
          let same = sym (if_pos (addr_key.dec localhost ip) p _ none) ∙ e in
          subst (λ k. IsAt reader k (some location)) p (subst (IsAt reader localhost) same home)
      | no n ↦ let nothing = sym (if_neg (addr_key.dec localhost ip) n _ none) ∙ e in absurd (cc)
    ];
    has_home = ap is_some (if_pos (addr_key.dec localhost localhost) refl _ none);
  }
