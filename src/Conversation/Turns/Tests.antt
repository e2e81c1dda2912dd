-- ===== src/Conversation/Turns/Tests.antt =====
-- Turns of a WeChat owner, on a server in memory.
use anime_companion_ai.Prelude.{ℕ, ◌<◌, String, ◌≡◌, refl, true, [], arith}
use anime_companion_ai.Redis.Link.{answered}
use anime_companion_ai.Redis.Memory.{memory, fresh}
use anime_companion_ai.Conversation.{Identity, beijing_day, is_supported_channel}
use anime_companion_ai.Conversation.Keys.{turns_key}
use anime_companion_ai.Conversation.Scripts.Codec.{notation}
use anime_companion_ai.Conversation.Turns.{plain_turn, add_turn}
use anime_companion_ai.Conversation.Turns.Added.{Holds, IsAdded, add_turn-IsAdded}

abbrev one_day : ℕ → String
one_day day = "2023-11-15"

abbrev mina : Identity
mina = record { channel = "wechat"; external_id = "mina" }

a_day : 0 < 86400000
a_day = omega arith

supported : is_supported_channel mina.channel ≡ true
unfolding is_supported_channel
supported = refl

nothing_yet :
    Holds memory notation one_day "" 86400000 a_day mina supported
      (fresh 1700000000)
      (beijing_day 1700000000)
      []
unfolding turns_key
nothing_yet = refl

add_turn-IsAdded_example :
    IsAdded memory notation one_day "" 86400000 a_day mina supported
      (beijing_day 1700000000)
      []
      (plain_turn "0a" "user" "你好" 1700000000)
      30
      1700000000
      (add_turn memory notation one_day "" 86400000 answered mina "user" "你好" "0a" 1700000000
        (fresh 1700000000))
add_turn-IsAdded_example =
    add_turn-IsAdded memory notation one_day "" 86400000 a_day mina supported [] "user" "你好" "0a" 30
      1700000000 (fresh 1700000000) nothing_yet
