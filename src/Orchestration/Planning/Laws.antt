-- ===== src/Orchestration/Planning/Laws.antt =====
-- internal/orchestration/planning.go: the shape of the speaker plan.
use anime_companion_ai.Prelude.{
  ◌≤◌, ◌<◌, String, ◌≡◌, refl, true, false, List, [], ◌∷◌, ◌++◌, arith, ◌==◌, length, length-append,
  All, All-append, contains, IsNodup, IsNodup-append_one, if_cases,
}
use anime_companion_ai.Conversation.{Turn}
use anime_companion_ai.Persona.Registry.{CharacterId, haruhi}
use anime_companion_ai.Orchestration.Types.{Scope, Space}
use anime_companion_ai.Orchestration.Model.{Model}
use anime_companion_ai.Orchestration.Planning.{
  participant_ids, clean_plan, first_allowed, or_default, plan_speakers,
}

abbrev pub AllIn : List CharacterId → List CharacterId → Type 0
AllIn allowed = All (λ id. contains id allowed ≡ true)

pub record IsPlan (allowed plan : List CharacterId) : Type 0 where
  pub some_speaker : 0 < length plan
  pub at_most_five : length plan ≤ 5
  pub nobody_twice : IsNodup plan
  pub participants : AllIn allowed plan

record IsClean (allowed clean : List CharacterId) : Type 0 where
  at_most_five : length clean ≤ 5
  nobody_twice : IsNodup clean
  participants : AllIn allowed clean

IsClean-append :
    (allowed clean : List CharacterId) (id : CharacterId)
    → IsClean allowed clean
    → (length clean == 5) ≡ false
    → contains id allowed ≡ true
    → contains id clean ≡ false
    → IsClean allowed (clean ++ id ∷ [])
IsClean-append allowed clean id h n a s = record {
  at_most_five = ground (arith, h.at_most_five, length-append clean (id ∷ []));
  nobody_twice = IsNodup-append_one id clean h.nobody_twice s;
  participants = All-append (λ i. contains i allowed ≡ true) clean (id ∷ []) h.participants (a, tt);
}

clean_plan-IsClean :
    (allowed clean planned : List CharacterId)
    → IsClean allowed clean
    → IsClean allowed (clean_plan allowed clean clean planned)
unfolding clean_plan
clean_plan-IsClean allowed clean [] h = h
clean_plan-IsClean allowed clean (id ∷ planned) h =
    let skip = clean_plan-IsClean allowed clean planned h in
    if_cases (IsClean allowed) (length clean == 5) (λ _. h)
      λ room.
        if_cases (IsClean allowed) (contains id allowed)
          (λ a.
            if_cases (IsClean allowed) (contains id clean) (λ _. skip)
              λ fresh.
                clean_plan-IsClean allowed (clean ++ id ∷ []) planned
                  (IsClean-append allowed clean id h room a fresh))
          (λ _. skip)

first_allowed-IsPlan :
    (allowed addressed : List CharacterId)
    → contains haruhi allowed ≡ true
    → IsPlan allowed (first_allowed allowed addressed)
unfolding first_allowed
first_allowed-IsPlan allowed [] h = record {
  some_speaker = omega arith;
  at_most_five = omega arith;
  nobody_twice = (refl, tt);
  participants = (h, tt);
}
first_allowed-IsPlan allowed (id ∷ addressed) h =
    if_cases (IsPlan allowed) (contains id allowed)
      (λ a. record {
        some_speaker = omega arith;
        at_most_five = omega arith;
        nobody_twice = (refl, tt);
        participants = (a, tt);
      })
      (λ _. first_allowed-IsPlan allowed addressed h)

or_default-IsPlan :
    (allowed clean fallback : List CharacterId)
    → IsClean allowed clean
    → IsPlan allowed fallback
    → IsPlan allowed (or_default clean fallback)
unfolding or_default
or_default-IsPlan allowed [] fallback c f = f
or_default-IsPlan allowed (id ∷ clean) fallback c f = record {
  some_speaker = omega arith;
  at_most_five = c.at_most_five;
  nobody_twice = c.nobody_twice;
  participants = c.participants;
}

-- In a space in which Haruhi takes part, whatever the model answers and also if it fails, the plan
-- names at least one and at most five speakers, nobody twice, and only participants of the space.
pub plan_speakers-IsPlan :
    (model : Model) (scope : Scope) (space : Space) (history : List Turn) (content : String)
    → contains haruhi (participant_ids space) ≡ true
    → IsPlan (participant_ids space) (plan_speakers model scope space history content)
unfolding plan_speakers
plan_speakers-IsPlan model scope space history content h =
    or_default-IsPlan (participant_ids space) _ _
      (clean_plan-IsClean (participant_ids space) [] _
        (record { at_most_five = omega arith; nobody_twice = tt; participants = tt }))
      (first_allowed-IsPlan (participant_ids space) _ h)
