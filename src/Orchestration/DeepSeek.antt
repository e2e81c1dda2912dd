-- ===== src/Orchestration/DeepSeek.antt =====
-- internal/orchestration/deepseek.go, internal/chat/chat.go and internal/summarize/summarize.go: the
-- prompts for the chat model, and what is made of its answers.
pub mod Tests
use Prim.Native.String.{◌++◌}
use mathlib.Core.List.{◌++◌ as append}
use anime_companion_ai.Prelude.{
  ℕ, String, Bool, true, false, ◌||◌, Option, none, some, List, [], ◌∷◌, map, str_eq, ltb,
  if◌then◌else◌,
}
use anime_companion_ai.Prelude.Text.{trim_space, is_empty, byte_len}
use anime_companion_ai.Conversation.{Turn, speaker_user, role_user, role_assistant}
use anime_companion_ai.Persona.Registry.{Character, CharacterId, haruhi_prompt, find}
use anime_companion_ai.Orchestration.Types.{Space}
use anime_companion_ai.Orchestration.Model.{Model, PlanInput, CharacterInput, SummaryInput}
use anime_companion_ai.Orchestration.Context.Select.{select_history_batches}
use anime_companion_ai.Orchestration.Reply.{normalize_character_reply}
use anime_companion_ai.Agent.Server.{ChatTurn}

-- `schema.Message`, by the functions that make one.
pub data ChatMessage : Type 0 where
  system_message user_message assistant_message : String → ChatMessage

-- An answer of the chat model: an error, no message, or the content of one.
pub data Output : Type 0 where
  failed nothing : Output
  content : String → Output

abbrev pub joined : String → List String → String
joined separator [] = ""
joined separator (s ∷ []) = s
joined separator (s ∷ t ∷ l) = s ++ (separator ++ joined separator (t ∷ l))

abbrev pub concat_map {ℓ} : {A : Type ℓ} → (A → String) → List A → String
concat_map f [] = ""
concat_map f (x ∷ l) = f x ++ concat_map f l

unfoldable pub character_reply_instruction : String
character_reply_instruction = "只输出当前角色自己的发言正文。不要添加角色名、角色 ID 或冒号前缀，不要替其他角色发言，也不要续写多人对话。"

-- A line of the history for the planner.
abbrev pub history_line : Turn → String
history_line m = m.display_name ++ ("(" ++ (m.speaker_id ++ ("): " ++ (m.content ++ "\n"))))

abbrev pub as_spoken : Turn → String
as_spoken m = m.display_name ++ ("(" ++ (m.speaker_id ++ ("): " ++ m.content)))

-- `modelMessage`
unfoldable pub model_message : Turn → ChatMessage
model_message m =
    if str_eq m.speaker_kind speaker_user || str_eq m.role role_user
    then user_message m.content
    else assistant_message (as_spoken m)

abbrev pub listed_history : List Turn → String
listed_history [] = ""
listed_history (m ∷ ms) = "最近群聊：\n" ++ concat_map history_line (m ∷ ms)

abbrev pub addressed_line : List CharacterId → String
addressed_line [] = ""
addressed_line (id ∷ ids) = "用户明确提及：" ++ (joined "," (id ∷ ids) ++ "\n")

abbrev pub remembered : String → List String → List ChatMessage
remembered heading [] = []
remembered heading (s ∷ summaries) = system_message (heading ++ joined "\n" (s ∷ summaries)) ∷ []

-- The chat model and the reader of a JSON array of texts are parameters.
module _ (generate : List ChatMessage → Output) (read_ids : String → Option (List String)) where
  -- The prompt of `Plan`; `described` is a participant with the description.
  unfoldable pub plan_prompt : PlanInput → List ChatMessage
  unfolding select_history_batches
  plan_prompt input =
      let described = λ (c : Character). c.id ++ ("=" ++ c.description) in
      let history =
        select_history_batches input.history "speaker planner" input.user_content [] [] in
      system_message (
        "选择本轮有必要发言的角色。只返回 1 到 5 个唯一角色 ID 的 JSON 数组，不要解释。可选："
        ++ joined "；" (map described input.space.participants))
      ∷ user_message (
          listed_history history
          ++ (addressed_line input.addressed_ids ++ ("当前用户消息：" ++ input.user_content)))
      ∷ []

  unfoldable pub read_plan : Output → Option (List CharacterId)
  unfolding trim_space is_empty byte_len
  read_plan failed = none
  read_plan nothing = none
  read_plan (content text) =
      let raw = trim_space text in
      if is_empty raw || ltb 1024 (byte_len raw) then none else read_ids raw

  -- `Plan`
  unfoldable pub plan : PlanInput → Option (List CharacterId)
  unfolding plan_prompt read_plan
  plan input = read_plan (generate (plan_prompt input))

  unfoldable pub character_prompt : CharacterInput → List ChatMessage
  unfolding model_message character_reply_instruction
  character_prompt input =
      system_message (input.character.system_prompt ++ ("\n\n" ++ character_reply_instruction))
      ∷ append (remembered "本会话最近记忆：\n" input.summaries) (
          append (map model_message input.history) (
            user_message input.user_message.content
            ∷ map (λ m. assistant_message (as_spoken m)) input.prefix))

  unfoldable pub read_reply : Character → Output → Option String
  unfolding normalize_character_reply
  read_reply character failed = none
  read_reply character nothing = none
  read_reply character (content text) = some (normalize_character_reply text character)

  -- `Generate`
  unfoldable pub generate_reply : CharacterInput → Option String
  unfolding character_prompt read_reply
  generate_reply input = read_reply input.character (generate (character_prompt input))

  unfoldable pub read_trimmed : Output → Option String
  unfolding trim_space
  read_trimmed failed = none
  read_trimmed nothing = none
  read_trimmed (content text) = some (trim_space text)

  -- `Summarize`
  unfoldable pub summarize_messages : SummaryInput → Option String
  unfolding read_trimmed
  summarize_messages input =
      let line = λ (m : Turn). m.speaker_id ++ (": " ++ (m.content ++ "\n")) in
      read_trimmed (
        generate (
          system_message "只提炼用户明确陈述的重要事实和事件，并保留说话者归属。"
          ∷ user_message (concat_map line input.messages)
          ∷ []))

  -- `NewDeepSeekAdapter`
  unfoldable pub deep_seek_model : Model
  unfolding plan generate_reply summarize_messages
  deep_seek_model = record {
    plan = plan;
    generate = generate_reply;
    summarize = summarize_messages;
  }

  -- `Replier.Reply`. A model that answers with neither an error nor a message is not expected there.
  unfoldable pub chat_message : ChatTurn → ChatMessage
  chat_message turn =
      if str_eq turn.role role_assistant
      then assistant_message turn.content
      else user_message turn.content

  unfoldable pub reply_prompt : List String → List ChatTurn → String → List ChatMessage
  unfolding chat_message haruhi_prompt
  reply_prompt summaries history text =
      system_message haruhi_prompt
      ∷ append (remembered "最近 7 天记忆摘要：\n" summaries)
          (append (map chat_message history) (user_message text ∷ []))

  unfoldable pub chat_reply : List String → List ChatTurn → String → Option String
  unfolding reply_prompt read_trimmed
  chat_reply summaries history text = read_trimmed (generate (reply_prompt summaries history text))

  -- `Summarizer.Summarize`
  unfoldable pub summarize_turns : List ChatTurn → Option String
  unfolding read_trimmed
  summarize_turns [] = some ""
  summarize_turns (turn ∷ turns) =
      let line = λ (t : ChatTurn). t.role ++ (": " ++ (t.content ++ "\n")) in
      read_trimmed (
        generate (
          system_message "请把以下当天对话整理成一段简短记忆摘要，只保留用户的重要事实、偏好和当天主要事件。"
          ∷ user_message (concat_map line (turn ∷ turns))
          ∷ []))
