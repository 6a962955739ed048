-- ===== src/Fleet/FleetState/Stats.antt =====
-- FleetState's `stats`; the hash of the projected instances is a parameter.
pub mod Heartbeat
use rivalis.Common.{ℕ, ◌+◌, List, [], ◌∷◌, length}
use rivalis.Common.Map
use rivalis.Common.Map.{Map}
use rivalis.Handshake.Utf8.{Text}
use rivalis.Core.Room.{text_key}
use rivalis.Fleet.Model.{InstanceInfo}
use rivalis.Fleet.Snapshot.{sort_texts}
use rivalis.Fleet.FleetState.{State}
use rivalis.Fleet.FleetState.Resolve.{resolve}
use rivalis.Fleet.FleetState.Queries.{Projection, state_projection}

pub record FleetStats : Type 0 where
  pub instances : ℕ
  pub rooms : ℕ
  pub connections : ℕ
  pub room_types : List Text
  pub state_hash : Text

unfoldable pub add_types : Map Text (Unit {0}) → List Text → Map Text (Unit {0})
add_types types [] = types
add_types types (type ∷ rest) = add_types (Map.set type tt types) rest

pub record Tally : Type 0 where
  pub connections : ℕ
  pub rooms : ℕ
  pub types : Map Text (Unit {0})

unfoldable pub tally : Tally → List InstanceInfo → Tally
tally t [] = t
tally t (i ∷ is) =
    tally
      (record {
        connections = t.connections + i.connections;
        rooms = t.rooms + length i.rooms;
        types = add_types t.types i.room_types;
      })
      is

unfoldable pub stats : (List Projection → Text) → State → FleetStats
stats hash64 s =
    let instances = (resolve s).instances in
    let t = tally (record { connections = 0; rooms = 0; types = [] }) instances in
    record {
      instances = length instances;
      rooms = t.rooms;
      connections = t.connections;
      room_types = sort_texts [] (Map.keys t.types);
      state_hash = hash64 (state_projection s);
    }
