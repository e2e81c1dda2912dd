-- ===== src/Conversation/Structured/Appending.antt =====
-- internal/conversation/structured_store.go: what `AppendCharacter` leaves in the caller's batch.
use Prim.Native.String.{◌++◌}
use mathlib.Core.List.{◌++◌ as append}
use anime_companion_ai.Prelude.{
  ℕ, String, ◌≡◌, refl, sym, ap, ◌∙◌, Option, none, some, List, [], ◌∷◌, Result, ok, err, if_cases,
}
use anime_companion_ai.Redis.{Redis}
use anime_companion_ai.Redis.Entries.{get}
use anime_companion_ai.Redis.Link.{Link, answered, unsent, answer_lost, call}
use anime_companion_ai.Conversation.{
  Scope, Turn, Batch, role_assistant, speaker_character, beijing_day,
}
use anime_companion_ai.Conversation.Scripts.{
  Json, Keys, AppendReply, append_ok, append_lease_lost, append_error, number_last, holds,
  append_leased, append_script,
}
use anime_companion_ai.Conversation.Structured.{
  BatchError, lease_lost, unavailable, appended, append_character, keys_of,
}

number_last-append :
    (n : ℕ) (ms : List Turn) (m : Turn)
    → number_last n (append ms (m ∷ [])) ≡ append ms (record m { sequence = n } ∷ [])
number_last-append n [] m = refl
number_last-append n (x ∷ []) m = refl
number_last-append n (x ∷ y ∷ ms) m = ap (λ ns. x ∷ ns) (number_last-append n (y ∷ ms) m)

append_ok-batch : (m m' : Turn) (b b' : Batch) → append_ok m b ≡ append_ok m' b' → b ≡ b'
append_ok-batch m m' b b' e = cc

module _ (redis : Redis) (json : Json) (ttl_ms lease_ms : ℕ) where
  open redis use {Db, read}

  -- If the reply is that of an append, the last message of the batch has got a number.
  record Numbers (batch : Batch) (reply : AppendReply) : Type 0 where
    numbers :
        (m : Turn) (b : Batch)
        → reply ≡ append_ok m b
        → (n : ℕ) × (b
            ≡ record batch { character_messages = number_last n batch.character_messages })

  append_leased-Numbers :
      (keys : Keys) (request_id token : String) (message : Turn) (batch : Batch) (db : Db)
      → Numbers batch
          (append_leased redis json ttl_ms lease_ms keys request_id token message batch db).0
  unfolding append_leased
  append_leased-Numbers keys request_id token message batch db = record {
    numbers = λ m b e. (_, sym (append_ok-batch _ m _ b e));
  }

  append_script-Numbers :
      (keys : Keys) (request_id token : String) (message : Turn) (batch : Batch) (db : Db)
      → Numbers batch
          (append_script redis json ttl_ms lease_ms keys request_id token message batch db).0
  unfolding append_script
  append_script-Numbers keys request_id token message batch db =
      if_cases (λ (r : AppendReply × Db). Numbers batch r.0)
        (holds (get (read db keys.lease)) token)
        (λ _. append_leased-Numbers keys request_id token message batch db)
        (λ _. record {
          numbers = λ m b e. absurd (let impossible : append_lease_lost ≡ append_ok m b = e in cc);
        })

module _ (redis : Redis) (json : Json) (format_date : ℕ → String) (sort : List String → List String)
    (prefix : String) (ttl_ms lease_ms : ℕ) where
  open redis use {Db}

  -- If the call succeeds, the caller's batch is `batch`, with a number for its last message.
  record Adds (batch : Batch) (r : Batch × Result BatchError Turn) : Type 0 where
    adds :
        (m : Turn)
        → r.1 ≡ ok m
        → (n : ℕ) × (r.0
            ≡ record batch { character_messages = number_last n batch.character_messages })

  appended-Adds :
      (batch : Batch) (reply : Option AppendReply)
      → ((r : AppendReply) → reply ≡ some r → Numbers redis json ttl_ms lease_ms batch r)
      → Adds batch (appended redis json format_date sort prefix ttl_ms lease_ms batch reply)
  unfolding appended
  appended-Adds batch none h = record {
    adds = λ m e. absurd (let impossible : err unavailable ≡ ok m = e in cc);
  }
  appended-Adds batch (some append_error) h = record {
    adds = λ m e. absurd (let impossible : err unavailable ≡ ok m = e in cc);
  }
  appended-Adds batch (some append_lease_lost) h = record {
    adds = λ m e. absurd (let impossible : err lease_lost ≡ ok m = e in cc);
  }
  appended-Adds batch (some (append_ok m b)) h = record {
    adds = λ _ e. (h (append_ok m b) refl).numbers m b refl;
  }

  call-some :
      {A : Type 0} (link : Link) (script : Db → A × Db) (db : Db) (r : A)
      → (call link script db).0 ≡ some r
      → (script db).0 ≡ r
  unfolding call
  call-some answered script db r e = cc
  call-some unsent script db r e = absurd (let impossible : none ≡ some r = e in cc)
  call-some answer_lost script db r e = absurd (let impossible : none ≡ some r = e in cc)

  -- If `AppendCharacter` succeeds, the caller's batch has one message more, of the given speaker and
  -- with the given text, and nothing else but its time of change is different.
  pub append_character-adds :
      (link : Link) (scope : Scope) (batch : Batch)
      (token speaker_id display_name avatar_url content turn_hex : String) (now : ℕ) (db : Db)
      (m : Turn)
      → (append_character redis json format_date sort prefix ttl_ms lease_ms link scope batch token
          speaker_id display_name avatar_url content turn_hex now db).0.1
        ≡ ok m
      → (added : Turn) × ((append_character redis json format_date sort prefix ttl_ms lease_ms link
            scope batch token speaker_id display_name avatar_url content turn_hex now db).0.0
          ≡ record batch {
            character_messages = append batch.character_messages (added ∷ []);
            updated_at = now;
          })
        × (added.speaker_id ≡ speaker_id)
        × (added.content ≡ content)
  unfolding append_character
  append_character-adds link scope batch token speaker_id display_name avatar_url content turn_hex
        now db m e =
      let message : Turn = record {
        turn_id = "turn-" ++ turn_hex;
        role = role_assistant;
        content = content;
        created_at = now;
        conversation_id = scope.conversation_id;
        speaker_kind = speaker_character;
        speaker_id = speaker_id;
        batch_id = batch.batch_id;
        sequence = 0;
        display_name = display_name;
        avatar_url = avatar_url;
      } in
      let batch' : Batch = record batch {
        character_messages = append batch.character_messages (message ∷ []);
        updated_at = now;
      } in
      let keys =
        keys_of redis json format_date sort prefix ttl_ms lease_ms scope
          (beijing_day batch.created_at) batch.batch_id in
      let script =
        append_script redis json ttl_ms lease_ms keys batch.client_request_id token message
          batch' in
      let good : (r : AppendReply)
          → (call link script db).0 ≡ some r
          → Numbers redis json ttl_ms lease_ms batch' r =
        λ r f. rw (← call-some link script db r f) (
          append_script-Numbers redis json ttl_ms lease_ms keys batch.client_request_id token
            message batch' db) in
      let (n, same) = (appended-Adds batch' (call link script db).0 good).adds m e in
      (
        record message { sequence = n },
        same
            ∙ ap
                (λ (ms : List Turn). let b : Batch = record batch' { character_messages = ms } in b)
                (number_last-append n batch.character_messages message),
        refl,
        refl,
      )
