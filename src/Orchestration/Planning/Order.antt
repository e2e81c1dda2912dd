-- ===== src/Orchestration/Planning/Order.antt =====
-- Which speakers the plan names, and in which order, against a plain description.
use anime_companion_ai.Prelude.{
  ℕ, zero, suc, ◌+◌, String, ◌≡◌, ap, not, ◌&&◌, List, [], ◌∷◌, ◌++◌, arith, if◌then◌else◌, length,
  length-append, take, contains, append-nil, append_assoc,
}
use anime_companion_ai.Conversation.{Turn}
use anime_companion_ai.Persona.Registry.{CharacterId}
use anime_companion_ai.Persona.Aliases.{resolve_aliases}
use anime_companion_ai.Orchestration.Types.{Scope, Space}
use anime_companion_ai.Orchestration.Model.{Model}
use anime_companion_ai.Orchestration.Planning.{
  participant_ids, clean_plan, first_allowed, or_default, planned_or_none, plan_speakers,
}

-- The participants among `planned`, each at its first mention, less those in `seen`.
pub distinct : List CharacterId → List CharacterId → List CharacterId → List CharacterId
distinct allowed seen [] = []
distinct allowed seen (id ∷ planned) =
    let skip = distinct allowed seen planned in
    let keep = id ∷ distinct allowed (seen ++ id ∷ []) planned in
    if contains id allowed && not (contains id seen) then keep else skip

clean_plan-eq-take :
    (allowed clean planned : List CharacterId) (room : ℕ)
    → length clean + room ≡ 5
    → clean_plan allowed clean clean planned ≡ clean ++ take room (distinct allowed clean planned)
unfolding clean_plan distinct
clean_plan-eq-take allowed clean [] zero h = ground (arith, append-nil clean)
clean_plan-eq-take allowed clean [] (suc room) h = ground (arith, append-nil clean)
clean_plan-eq-take allowed clean (id ∷ planned) zero h = ground (arith, append-nil clean)
clean_plan-eq-take allowed clean (id ∷ planned) (suc room) h = ground (
  arith,
  clean_plan-eq-take allowed clean planned (suc room),
  clean_plan-eq-take allowed (clean ++ id ∷ []) planned room,
  length-append clean (id ∷ []),
  append_assoc clean (id ∷ []) (take room (distinct allowed (clean ++ id ∷ []) planned)),
)

-- The speakers are the first five distinct participants that the model names, in its order. If it
-- fails or names none, the first participant that the text mentions speaks, or else Haruhi.
pub plan_speakers-eq :
    (model : Model) (scope : Scope) (space : Space) (history : List Turn) (content : String)
    → plan_speakers model scope space history content
      ≡ or_default
          (take 5 (
            distinct (participant_ids space) [] (
              planned_or_none (
                model.plan (record {
                  scope = scope;
                  space = space;
                  history = history;
                  user_content = content;
                  addressed_ids = resolve_aliases content;
                })))))
          (first_allowed (participant_ids space) (resolve_aliases content))
unfolding plan_speakers
plan_speakers-eq model scope space history content =
    ap (λ clean. or_default clean (first_allowed (participant_ids space) (resolve_aliases content)))
      (clean_plan-eq-take (participant_ids space) [] _ 5 (omega arith))
