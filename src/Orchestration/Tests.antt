-- ===== src/Orchestration/Tests.antt =====
-- The orchestration on a store that counts its calls, and with a model of fixed answers.
use anime_companion_ai.Prelude.{
  ℕ, suc, String, ◌≡◌, refl, Bool, true, Option, none, some, List, [], ◌∷◌, ◌++◌, ok, contains,
  take,
}
use anime_companion_ai.Conversation.{
  Turn, Batch, speaker_user, speaker_character, batch_generating, batch_complete,
}
use anime_companion_ai.Persona.Aliases.{resolve_aliases}
use anime_companion_ai.Persona.Registry.{Character, haruhi, all, find}
use anime_companion_ai.Prelude.Text.{is_empty, trim_space}
use anime_companion_ai.Orchestration.Types.{Scope, Space, group}
use anime_companion_ai.Orchestration.Model.{Model}
use anime_companion_ai.Orchestration.Store.{Store, begin_started, begin_existing}
use anime_companion_ai.Orchestration.Planning.{
  participant_ids, plan_speakers, or_default, planned_or_none, first_allowed,
}
use anime_companion_ai.Orchestration.Planning.Laws.{IsPlan, plan_speakers-IsPlan}
use anime_companion_ai.Orchestration.Planning.Order.{distinct, plan_speakers-eq}
use anime_companion_ai.Orchestration.Send.{after_begin, plan_of, said, say}
use anime_companion_ai.Orchestration.Send.Release.{IsClosed, after_begin-IsClosed}
use anime_companion_ai.Orchestration.Send.Outcome.{StoreLaws, IsReply, after_begin-IsReply}

-- Kyon is named twice, and nobody is called mori.
abbrev fixed_model : Model
fixed_model = record {
  plan = λ i. some ("kyon" ∷ "mori" ∷ "yuki" ∷ "kyon" ∷ []);
  generate = λ i. some "好。";
  summarize = λ i. none;
}

abbrev turn : String → String → String → Turn
turn kind speaker content = record {
  turn_id = "turn-1";
  role = kind;
  content = content;
  created_at = 0;
  conversation_id = "sos-group";
  speaker_kind = kind;
  speaker_id = speaker;
  batch_id = "batch-1";
  sequence = 1;
  display_name = "";
  avatar_url = "";
}

abbrev said_by : Character → String → Turn
said_by character text = turn speaker_character character.id text

abbrev batch : Batch
batch = record {
  batch_id = "batch-1";
  client_request_id = "request-1";
  conversation_id = "sos-group";
  planned_speaker_ids = [];
  user_message = turn speaker_user speaker_user "大家好";
  character_messages = [];
  status = batch_generating;
  interruption_code = "";
  created_at = 0;
  updated_at = 0;
}

abbrev counting_store : Store
counting_store = record {
  State = ℕ;
  messages = λ scope s. (some [], suc s);
  begin_batch = λ scope id content s. (begin_existing batch, suc s);
  save_batch = λ scope b lease release s. (record { batch = b; error = none }, suc s);
  append_character = λ scope b lease character text s. (
    record {
      batch = record b { character_messages = b.character_messages ++ said_by character text ∷ [] };
      error = none;
    },
    suc s,
  );
  interrupt_batch = λ scope id request lease created s. (none, suc s);
  clear_scope_today = λ scope s. (none, suc s);
}

abbrev sos_group : Space
sos_group = record { id = "sos-group"; kind = group; display_name = "SOS 团"; participants = all }

abbrev scope : Scope
scope = record { owner = record { channel = "api"; id = "mina" }; conversation_id = "sos-group" }

abbrev no_repo : Option (Scope → Option (List String))
no_repo = none

abbrev any_uuid : String → Bool
any_uuid s = true

counting_store-laws : StoreLaws counting_store
counting_store-laws = record {
  save_keeps = λ scope b lease release s h. (b.updated_at, refl);
  append_adds =
      λ scope b lease character text s h. (said_by character text, b.updated_at, refl, refl, refl);
}

-- The batch as it comes back.
abbrev replied : Batch
replied = record batch {
  planned_speaker_ids = "kyon" ∷ "yuki" ∷ [];
  character_messages = turn speaker_character "kyon" "好。" ∷ turn speaker_character "yuki" "好。" ∷ [];
  status = batch_complete;
}

run :
    (after_begin counting_store fixed_model no_repo any_uuid scope sos_group "大家好" [] []
      (begin_started batch "lease")
      0).0
    ≡ ok replied
unfolding after_begin plan_speakers all is_empty trim_space said say find
run = refl

after_begin-IsReply_example :
    IsReply (plan_of counting_store fixed_model no_repo any_uuid scope sos_group [] "大家好") replied
after_begin-IsReply_example =
    after_begin-IsReply counting_store counting_store-laws fixed_model no_repo any_uuid scope
      sos_group "大家好" [] [] batch "lease" 0 replied refl refl run

after_begin-IsClosed_example :
    IsClosed counting_store fixed_model no_repo any_uuid scope batch "lease"
      (after_begin counting_store fixed_model no_repo any_uuid scope sos_group "大家好" [] []
        (begin_started batch "lease")
        0).1
after_begin-IsClosed_example =
    after_begin-IsClosed counting_store fixed_model no_repo any_uuid scope sos_group "大家好" [] []
      batch "lease" 0

haruhi-participates : contains haruhi (participant_ids sos_group) ≡ true
unfolding all
haruhi-participates = refl

plan_speakers-IsPlan_example :
    IsPlan (participant_ids sos_group) (plan_speakers fixed_model scope sos_group [] "大家好")
plan_speakers-IsPlan_example =
    plan_speakers-IsPlan fixed_model scope sos_group [] "大家好" haruhi-participates

plan_speakers-eq_example :
    plan_speakers fixed_model scope sos_group [] "大家好"
    ≡ or_default
        (take 5 (
          distinct (participant_ids sos_group) [] (
            planned_or_none (
              fixed_model.plan (record {
                scope = scope;
                space = sos_group;
                history = [];
                user_content = "大家好";
                addressed_ids = resolve_aliases "大家好";
              })))))
        (first_allowed (participant_ids sos_group) (resolve_aliases "大家好"))
plan_speakers-eq_example = plan_speakers-eq fixed_model scope sos_group [] "大家好"
