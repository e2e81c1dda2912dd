-- ===== src/Agent/Tests.antt =====
-- The agent's server before a conversation that is busy, and on its way to the gateway.
use anime_companion_ai.Prelude.{ℕ, suc, String, ◌≡◌, refl, ap, ◌⊎◌, Bool, true, none, some, [], err}
use anime_companion_ai.Prelude.Text.{is_empty, byte_len, trim_space, rune_count}
use anime_companion_ai.Conversation.{Identity, is_supported_channel}
use anime_companion_ai.Persona.Registry.{all, registry}
use anime_companion_ai.Orchestration.Types.{SendCommand, find_space, fixed_spaces}
use anime_companion_ai.Orchestration.Model.{Model}
use anime_companion_ai.Orchestration.Reply.{normalize_character_messages}
use anime_companion_ai.Orchestration.Store.{Store, conversation_busy, lease_lost, begin_failed}
use anime_companion_ai.Orchestration.Send.{
  of_store, send, send_in, after_history, load_summaries, after_begin,
}
use anime_companion_ai.Orchestration.Send.WriteErrors.{WriteLaws}
use anime_companion_ai.Orchestration.Send.Refusal.{Unstarted}
use anime_companion_ai.Gateway.Messages.{aborted}
use anime_companion_ai.Agent.Server.{
  Legacy, orchestration_status, validate_identity, validated, batch_answer, send_in_app,
  send_conversation_message, agent_scope,
}
use anime_companion_ai.Agent.Definitive.{send_conversation_message-excuses}

-- A store that counts its calls, and whose conversation is busy.
abbrev busy : Store
busy = record {
  State = ℕ;
  messages = λ scope s. (some [], suc s);
  begin_batch = λ scope request_id content s. (begin_failed conversation_busy, suc s);
  save_batch =
      λ scope batch lease release s. (record { batch = batch; error = some lease_lost }, suc s);
  append_character = λ scope batch lease character text s.
      (record { batch = batch; error = some lease_lost }, suc s);
  interrupt_batch = λ scope batch_id request_id lease created_at s. (none, suc s);
  clear_scope_today = λ scope s. (some conversation_busy, suc s);
}

busy-WriteLaws : WriteLaws busy
busy-WriteLaws = record {
  save_not_busy = λ scope batch lease release s e. cc;
  append_not_busy = λ scope batch lease character text s e. cc;
}

abbrev silent : Model
silent = record { plan = λ i. none; generate = λ i. none; summarize = λ i. none }

abbrev any : String → Bool
any id = true

abbrev no_hash : String → ℕ
no_hash text = 0

abbrev legacy : Legacy ℕ
legacy = record {
  recent_summaries = λ identity s. (none, s);
  recent_turns = λ identity limit s. (none, s);
  add_turn = λ identity role content s. (true, s);
  turns_today = λ identity s. (none, s);
  clear_turns_today = λ identity s. (true, s);
  reply = λ summaries history text. none;
}

abbrev visitor : Identity
visitor = record { channel = "wechat"; external_id = "mina" }

abbrev command : SendCommand
command = record {
  scope = agent_scope visitor "direct-haruhi";
  content = "你好";
  client_request_id = "request-1";
}

send_conversation_message-busy :
    send_conversation_message busy silent none any no_hash true legacy visitor "direct-haruhi" "你好"
      "request-1" 0
    ≡ (err aborted, 2)
unfolding send_conversation_message validated validate_identity send_in_app is_supported_channel
    is_empty byte_len batch_answer orchestration_status send send_in after_history load_summaries
    after_begin find_space fixed_spaces all registry trim_space rune_count
    normalize_character_messages
send_conversation_message-busy = refl

send_conversation_message-excuses_example :
    ((send busy silent none any command 0).0 ≡ err (of_store lease_lost))
    ⊎ Unstarted busy busy-WriteLaws silent none any command 0
        (send_conversation_message busy silent none any no_hash true legacy visitor "direct-haruhi"
          "你好" "request-1" 0).1
send_conversation_message-excuses_example =
    send_conversation_message-excuses busy busy-WriteLaws silent none any no_hash true legacy
      visitor "direct-haruhi" "你好" "request-1" 0 aborted
      (ap (λ r. r.0) send_conversation_message-busy) refl
