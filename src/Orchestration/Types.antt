-- ===== src/Orchestration/Types.antt =====
-- internal/orchestration/types.go: spaces, the fixed spaces and their lookup.
use Prim.Native.String.{◌++◌}
use anime_companion_ai.Prelude.{String, Option, none, some, List, [], ◌∷◌, str_eq, if◌then◌else◌}
use anime_companion_ai.Persona.Registry.{Character, all}

pub record Owner : Type 0 where
  pub channel : String
  pub id : String

pub record Scope : Type 0 where
  pub owner : Owner
  pub conversation_id : String

pub data SpaceKind : Type 0 where
  group direct : SpaceKind

pub record Space : Type 0 where
  pub id : String
  pub kind : SpaceKind
  pub display_name : String
  pub participants : List Character

pub record SendCommand : Type 0 where
  pub scope : Scope
  pub content : String
  pub client_request_id : String

direct_space : Character → Space
direct_space character = record {
  id = "direct-" ++ character.id;
  kind = direct;
  display_name = character.display_name;
  participants = character ∷ [];
}

direct_spaces : List Character → List Space
unfolding direct_space
direct_spaces [] = []
direct_spaces (character ∷ rest) = direct_space character ∷ direct_spaces rest

unfoldable pub fixed_spaces : List Space
unfolding all direct_spaces
fixed_spaces =
    record { id = "sos-group"; kind = group; display_name = "SOS 团"; participants = all }
    ∷ direct_spaces all

find_space_in : String → List Space → Option Space
find_space_in id [] = none
find_space_in id (space ∷ rest) = if str_eq space.id id then some space else find_space_in id rest

unfoldable pub find_space : String → Option Space
unfolding fixed_spaces find_space_in
find_space id = find_space_in id fixed_spaces
