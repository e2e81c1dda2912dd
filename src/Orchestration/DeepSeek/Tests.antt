-- ===== src/Orchestration/DeepSeek/Tests.antt =====
-- Prompts of one conversation, and answers that cannot be used.
use anime_companion_ai.Prelude.{String, ◌≡◌, refl, Option, none, some, List, [], ◌∷◌}
use anime_companion_ai.Persona.Registry.{haruhi, haruhi_prompt}
use anime_companion_ai.Agent.Server.{ChatTurn}
use anime_companion_ai.Orchestration.DeepSeek.{
  ChatMessage, system_message, user_message, assistant_message, Output, nothing, content, read_plan,
  reply_prompt, summarize_turns,
}

abbrev silent : List ChatMessage → Output
silent prompt = nothing

abbrev ids : String → Option (List String)
ids text = some (haruhi ∷ [])

abbrev turns : List ChatTurn
turns =
    record { role = "user"; content = "早" } ∷ record { role = "assistant"; content = "太慢了！" } ∷ []

prompted :
    reply_prompt silent ids ("喜欢棒球" ∷ "住在西宫" ∷ []) turns "今天做什么"
    ≡ system_message haruhi_prompt
      ∷ system_message "最近 7 天记忆摘要：\n喜欢棒球\n住在西宫"
      ∷ user_message "早"
      ∷ assistant_message "太慢了！"
      ∷ user_message "今天做什么"
      ∷ []
unfolding reply_prompt
prompted = refl

-- No plan is read from blanks, from an error or from no message.
unread : read_plan silent ids (content " \n") ≡ none
unfolding read_plan
unread = refl

unanswered : summarize_turns silent ids turns ≡ none
unfolding summarize_turns
unanswered = refl

-- Without turns the model is not asked.
unasked : summarize_turns silent ids [] ≡ some ""
unfolding summarize_turns
unasked = refl
