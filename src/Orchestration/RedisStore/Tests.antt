-- ===== src/Orchestration/RedisStore/Tests.antt =====
-- The store in Redis, on a server in memory, where every tenth operation is lost on the way.
use Prim.Native.String.{◌++◌}
use mathlib.Core.Path.{subst}
use text.Mathlib.TextLemmas.{append_assoc}
use anime_companion_ai.Prelude.Text.{differ-ne, is_empty, trim_space}
use anime_companion_ai.Conversation.{Turn, Batch, batch_generating, batch_complete}
use anime_companion_ai.Conversation.Scripts.{set_for}
use anime_companion_ai.Persona.Registry.{all}
use anime_companion_ai.Orchestration.Model.{Model, CharacterInput}
use anime_companion_ai.Orchestration.Store.{Store, begin_started}
use anime_companion_ai.Prelude.{
  Bool, true, Option, none, some, [], ◌∷◌, map, ok, ◌≡◌, ◌∙◌, false, str_eq, ℕ, ◌==◌, String, List,
  if◌then◌else◌, refl, arith,
}
use anime_companion_ai.Redis.Link.{answered, answer_lost}
use anime_companion_ai.Redis.Memory.{memory, fresh}
use anime_companion_ai.Conversation.Scripts.Codec.{notation}
use anime_companion_ai.Conversation.Keys.{
  messages_key, sequence_key, requests_key, batch_key, lease_key, scope_tag,
}
use anime_companion_ai.Conversation.Scripts.Held.{LeaseApart}
use anime_companion_ai.Conversation.Structured.{keys_of}
use anime_companion_ai.Orchestration.Types.{Scope, Space, group}
use anime_companion_ai.Orchestration.Send.{storage_scope, text_of, after_begin, plan_of}
use anime_companion_ai.Orchestration.Send.Completion.{KeepsLease, after_begin-completes}
use anime_companion_ai.Orchestration.RedisStore.Lease.{Holds, redis_store-KeepsLease}
use anime_companion_ai.Orchestration.RedisStore.{Environment, World, redis_store}
use anime_companion_ai.Orchestration.RedisStore.Laws.{redis_store-StoreLaws}
use anime_companion_ai.Orchestration.Send.Outcome.{StoreLaws, speakers, speaker_of}
use Prim.Native.Nat.{◌%◌}

abbrev environment : Environment
environment = record {
  link = λ tick call. if tick % 10 == 9 then answer_lost else answered;
  time = λ tick. 1700000000;
  hex = λ tick draw. "0a";
}

abbrev one_day : ℕ → String
one_day day = "2023-11-15"

abbrev unsorted : List String → List String
unsorted texts = texts

redis_store-StoreLaws_example :
    StoreLaws (redis_store memory notation one_day unsorted "app:" 86400000 45000 environment)
redis_store-StoreLaws_example =
    redis_store-StoreLaws memory notation one_day unsorted "app:" 86400000 45000 environment

-- No call is lost, and the lease of the conversation is "L".
abbrev calm : Environment
calm = record environment { link = λ tick call. answered }

abbrev mina : Scope
mina = record { owner = record { channel = "api"; id = "mina" }; conversation_id = "sos-group" }

-- The key of a batch, from its constant part on.
abbrev after_batch : String → String
after_batch batch_id =
    "app:" ++ ("conversation:v2:" ++ ("{api|mina|sos-group}" ++ (":batch:" ++ batch_id)))

after_batch-eq :
    (batch_id : String)
    → "app:conversation:v2:{api|mina|sos-group}:batch:" ++ batch_id ≡ after_batch batch_id
after_batch-eq batch_id =
    append_assoc "app:conversation:v2:{api|mina|sos-group}" ":batch:" batch_id
    ∙ append_assoc "app:conversation:v2:" "{api|mina|sos-group}" (":batch:" ++ batch_id)
    ∙ append_assoc "app:" "conversation:v2:" ("{api|mina|sos-group}" ++ (":batch:" ++ batch_id))

batch-apart :
    (batch_id : String)
    → str_eq (after_batch batch_id) "app:conversation:v2:{api|mina|sos-group}:lease" ≡ false
batch-apart batch_id =
    subst (λ key. str_eq key "app:conversation:v2:{api|mina|sos-group}:lease" ≡ false)
      (after_batch-eq batch_id)
      (differ-ne "app:conversation:v2:{api|mina|sos-group}:batch:"
        "app:conversation:v2:{api|mina|sos-group}:lease" batch_id "" refl)

apart :
    (day : ℕ) (batch_id : String)
    → LeaseApart (
        keys_of memory notation one_day unsorted "app:" 86400000 45000
          (storage_scope mina)
          day
          batch_id)
unfolding keys_of messages_key sequence_key requests_key batch_key lease_key storage_scope scope_tag
apart day batch_id = record {
  sequence = refl;
  messages = refl;
  batch = batch-apart batch_id;
  requests = refl;
}

abbrev IsHeld : World memory notation one_day unsorted "app:" 86400000 45000 calm → Type 0
IsHeld =
    Holds memory notation one_day unsorted "app:" 86400000 45000 calm (omega arith) (omega arith)
      (λ n k. refl) (storage_scope mina) "L" apart

leased :
    KeepsLease
      (redis_store memory notation one_day unsorted "app:" 86400000 45000 calm)
      (storage_scope mina)
      "L"
      IsHeld
leased =
    redis_store-KeepsLease memory notation one_day unsorted "app:" 86400000 45000 calm (omega arith)
      (omega arith) (λ n k. refl) (storage_scope mina) "L" apart

-- Everybody is wanted who is there, and says something.
abbrev talker : Model
talker = record {
  plan = λ i. some ("kyon" ∷ "yuki" ∷ []);
  generate = λ i. some "好。";
  summarize = λ i. none;
}

talks : (i : CharacterInput) → is_empty (text_of (talker.generate i)) ≡ false
unfolding is_empty trim_space
talks i = refl

abbrev user_message : Turn
user_message = record {
  turn_id = "turn-1";
  role = "user";
  content = "大家好";
  created_at = 1700000000;
  conversation_id = "sos-group";
  speaker_kind = "user";
  speaker_id = "user";
  batch_id = "batch-1";
  sequence = 1;
  display_name = "你";
  avatar_url = "";
}

abbrev begun : Batch
begun = record {
  batch_id = "batch-1";
  client_request_id = "request-1";
  conversation_id = "sos-group";
  planned_speaker_ids = [];
  user_message = user_message;
  character_messages = [];
  status = batch_generating;
  interruption_code = "";
  created_at = 1700000000;
  updated_at = 1700000000;
}

abbrev world : World memory notation one_day unsorted "app:" 86400000 45000 calm
world = record {
  db =
      set_for memory notation 86400000 45000 (fresh 1000)
        "app:conversation:v2:{api|mina|sos-group}:lease" "L" 45000;
  tick = 0;
}

abbrev sos_group : Space
sos_group = record { id = "sos-group"; kind = group; display_name = "SOS 团"; participants = all }

abbrev store : Store
store = redis_store memory notation one_day unsorted "app:" 86400000 45000 calm

abbrev no_repo : Option (Scope → Option (List String))
no_repo = none

abbrev any_uuid : String → Bool
any_uuid s = true

after_begin-completes_example :
    (b : Batch) × ((after_begin store talker no_repo any_uuid mina sos_group "大家好" [] []
        (begin_started begun "L")
        world).0
      ≡ ok b)
    × (b.status ≡ batch_complete)
    × (speakers b.character_messages
        ≡ map speaker_of (plan_of store talker no_repo any_uuid mina sos_group [] "大家好"))
unfolding set_for lease_key storage_scope scope_tag
after_begin-completes_example =
    after_begin-completes store
      (redis_store-StoreLaws memory notation one_day unsorted "app:" 86400000 45000 calm) talker
      talks no_repo any_uuid mina sos_group "大家好" [] [] begun "L" IsHeld leased world refl refl refl
