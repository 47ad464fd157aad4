-- ===== src/Core/Locations.antt =====
-- backend/telemetry_core/src/find_location.rs: where an address is, with a cache. The database of locations
-- is an argument, and so is the conversion of a coordinate from 64 bits to 32. Each
-- request is answered in a task of its own; the tasks take turns in any order.
mod Answering
mod Caching
mod Finishing
mod Examples
use substrate_telemetry.Prelude.{
  ℕ, Option, zero, suc, none, some, List, [], ◌∷◌, ◌++◌, and_then, Text,
}
use substrate_telemetry.Prelude.HashMap
use substrate_telemetry.Prelude.HashMap.{HashMap}
use substrate_telemetry.Common.InternalMessages.{IpAddr, v4, addr_key}
use substrate_telemetry.Common.NodeTypes.{NodeLocation, Location}

-- What is used of an entry of the database: the English name of its city, and its place.
pub record Place : Type 0 where
  pub latitude : Option ℕ
  pub longitude : Option ℕ

pub record City : Type 0 where
  pub name : Option Text
  pub place : Option Place

pub record Reader : Type 0 where
  pub lookup : IpAddr → Option City
  pub as_f32 : ℕ → ℕ

abbrev pub Cache : Type 0
Cache = HashMap IpAddr NodeLocation

-- 127.0.0.1, and "Berlin"
abbrev pub localhost : IpAddr
localhost = v4 2130706433

abbrev pub berlin : Text
berlin = b'B' ∷ b'e' ∷ b'r' ∷ b'l' ∷ b'i' ∷ b'n' ∷ []

-- The cache at the start; 52.516_6667 and 13.4 as they are written in 32 bits.
unfoldable pub default_cache : Cache
default_cache =
    (localhost, record { latitude = 1112674577; longitude = 1096181350; city = berlin }) ∷ []

-- The location of an entry that has all of its parts.
pub location_of : Reader → City → Option NodeLocation
location_of reader city = and_then city.name (λ name. and_then city.place (λ place.
    and_then place.latitude (λ latitude. and_then place.longitude (λ longitude. some (record {
      latitude = reader.as_f32 latitude;
      longitude = reader.as_f32 longitude;
      city = name;
    })))))

-- A location that was found is entered into the cache.
pub found : IpAddr → Option NodeLocation → Cache → Cache × Location
found ip none cache = (cache, none)
found ip (some location) cache = (HashMap.insert ip location cache, some location)

-- Where a call of `locate` stands: before it reads the cache, when the cache had nothing, or with
-- its result.
pub data Stage : Type 0 where
  reading : Stage
  looking_up : Stage
  located : Location → Stage

-- What the cache had.
pub cached : Option NodeLocation → Stage
cached none = looking_up
cached (some location) = located (some location)

-- A task that answers a request, which was made under some name.
pub record Task (Name : Type 0) : Type 0 where
  pub name : Name
  pub ip : IpAddr
  pub stage : Stage

-- The tasks and the cache that they share.
pub record Locator (Name : Type 0) : Type 0 where
  pub cache : Cache
  pub tasks : List (Task Name)

-- What happens: a request is received, or a task goes on, up to its next use of the cache or to its
-- answer. The scheduler picks the task.
pub data Event (Name : Type 0) : Type 0 where
  requested : Name → IpAddr → Event Name
  resumed : ℕ → Event Name

module _ {Name : Type 0} (reader : Reader) where
  -- One task goes on, before the others; a task that sends its answer is over.
  pub advance :
      Stage
      → Task Name
      → List (Task Name)
      → Cache
      → Cache × (List (Task Name) × List (Name × Location))
  unfolding location_of found cached
  advance reading task tasks cache =
      (cache, (record task { stage = cached (HashMap.get task.ip cache) } ∷ tasks, []))
  advance looking_up task tasks cache =
      let (cache', location) =
        found task.ip (and_then (reader.lookup task.ip) (location_of reader)) cache in
      (cache', (record task { stage = located location } ∷ tasks, []))
  advance (located location) task tasks cache = (cache, (tasks, (task.name, location) ∷ []))

  -- The task at an index goes on.
  pub resume : ℕ → List (Task Name) → Cache → Cache × (List (Task Name) × List (Name × Location))
  unfolding advance
  resume i [] cache = (cache, ([], []))
  resume zero (task ∷ tasks) cache = advance task.stage task tasks cache
  resume (suc i) (task ∷ tasks) cache =
      let (cache', (tasks', answers)) = resume i tasks cache in (cache', (task ∷ tasks', answers))

  pub turn : Event Name → Locator Name → Locator Name × List (Name × Location)
  unfolding resume
  turn (requested name ip) s =
      (record s { tasks = record { name = name; ip = ip; stage = reading } ∷ s.tasks }, [])
  turn (resumed i) s =
      let (cache, (tasks, answers)) = resume i s.tasks s.cache in
      (record { cache = cache; tasks = tasks }, answers)

  pub run : List (Event Name) → Locator Name → Locator Name × List (Name × Location)
  unfolding turn
  run [] s = (s, [])
  run (e ∷ es) s =
      let (s', answers) = turn e s in let (s'', others) = run es s' in (s'', answers ++ others)

unfoldable pub start : {Name : Type 0} → Locator Name
start = record { cache = default_cache; tasks = [] }
