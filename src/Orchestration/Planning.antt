-- ===== src/Orchestration/Planning.antt =====
-- internal/orchestration/planning.go: who speaks in a group.
pub mod Laws
pub mod Order
use anime_companion_ai.Prelude.{
  String, true, false, Option, none, some, List, [], ◌∷◌, ◌++◌, map, ◌==◌, if◌then◌else◌, length,
  contains,
}
use anime_companion_ai.Conversation.{Turn}
use anime_companion_ai.Persona.Registry.{CharacterId, Character, haruhi}
use anime_companion_ai.Persona.Aliases.{resolve_aliases}
use anime_companion_ai.Orchestration.Types.{Scope, Space}
use anime_companion_ai.Orchestration.Model.{Model, PlanInput}

-- The keys of the map `allowed`.
abbrev pub participant_ids : Space → List CharacterId
participant_ids space = map (λ c. c.id) space.participants

-- The loop over `planned`, with the set `seen` and the result `clean`.
unfoldable pub clean_plan :
    List CharacterId → List CharacterId → List CharacterId → List CharacterId → List CharacterId
clean_plan allowed seen clean [] = clean
clean_plan allowed seen clean (id ∷ planned) =
    let skip = clean_plan allowed seen clean planned in
    let take = clean_plan allowed (seen ++ id ∷ []) (clean ++ id ∷ []) planned in
    if length clean == 5
    then clean
    else if contains id allowed
    then (if contains id seen then skip else take)
    else skip

-- The loop over `addressed`, and the last resort.
unfoldable pub first_allowed : List CharacterId → List CharacterId → List CharacterId
first_allowed allowed [] = haruhi ∷ []
first_allowed allowed (id ∷ addressed) =
    if contains id allowed then id ∷ [] else first_allowed allowed addressed

unfoldable pub or_default : List CharacterId → List CharacterId → List CharacterId
or_default [] fallback = fallback
or_default (id ∷ clean) fallback = id ∷ clean

abbrev pub planned_or_none : Option (List CharacterId) → List CharacterId
planned_or_none none = []
planned_or_none (some planned) = planned

unfoldable pub plan_speakers : Model → Scope → Space → List Turn → String → List CharacterId
unfolding clean_plan first_allowed or_default resolve_aliases
plan_speakers model scope space history content =
    let addressed = resolve_aliases content in
    let planned = model.plan (record {
      scope = scope;
      space = space;
      history = history;
      user_content = content;
      addressed_ids = addressed;
    }) in
    let allowed = participant_ids space in
    or_default (clean_plan allowed [] [] (planned_or_none planned))
      (first_allowed allowed addressed)
