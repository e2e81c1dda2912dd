-- ===== src/Gateway/Messages/Tests.antt =====
-- A message that is sent to services with fixed answers, which count their calls.
use anime_companion_ai.Prelude.{ℕ, suc, String, ◌≡◌, refl, Bool, true, false, none, [], ◌∷◌, ok}
use anime_companion_ai.Prelude.Int.{pos}
use anime_companion_ai.Conversation.{Turn, Batch, batch_complete}
use anime_companion_ai.Quota.Types.{Snapshot, no_reservation, no_snapshot}
use anime_companion_ai.Gateway.Messages.{Services, Request, ok_reply, web_send_message}
use anime_companion_ai.Gateway.Messages.Settled.{IsCharged, to_haruhi, web_send_message-IsCharged}

abbrev message : String → String → Turn
message speaker text = record {
  turn_id = "turn-1";
  role = "assistant";
  content = text;
  created_at = 0;
  conversation_id = "direct-haruhi";
  speaker_kind = "character";
  speaker_id = speaker;
  batch_id = "batch-1";
  sequence = 1;
  display_name = "";
  avatar_url = "";
}

abbrev batch : Batch
batch = record {
  batch_id = "batch-1";
  client_request_id = "request-1";
  conversation_id = "direct-haruhi";
  planned_speaker_ids = "haruhi" ∷ [];
  user_message = message "user" "你好";
  character_messages = message "haruhi" "哼！" ∷ [];
  status = batch_complete;
  interruption_code = "";
  created_at = 0;
  updated_at = 0;
}

abbrev counted : Snapshot
counted = record no_snapshot { limit = pos 5; used = pos 1; remaining = pos 4 }

abbrev services : Services
services = record {
  State = ℕ;
  has_quota = true;
  allow = λ user s. (true, suc s);
  reserve = λ user id s.
      (record { reservation = no_reservation; snapshot = counted; error = none }, suc s);
  settle = λ reservation outcome s. (record { snapshot = counted; error = none }, suc s);
  send = λ user conversation content id s. (ok batch, suc s);
}

abbrev is_uuid : String → Bool
is_uuid s = true

abbrev request : Request
request = record {
  user = record { user_id = "mina"; is_admin = false };
  conversation_id = "";
  content = "你好";
  client_request_id = "request-1";
}

answered : (web_send_message services is_uuid true "new" request 0).0 ≡ ok_reply "哼！" counted
unfolding web_send_message
answered = refl

web_send_message-IsCharged_example :
    IsCharged services is_uuid refl
      (to_haruhi services is_uuid refl request)
      0
      (web_send_message services is_uuid true "new" request 0).1
web_send_message-IsCharged_example =
    web_send_message-IsCharged services is_uuid refl true "new" request 0 "哼！" counted answered
