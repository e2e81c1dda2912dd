-- ===== src/Orchestration/Context/Estimate.antt =====
-- internal/orchestration/context.go: `estimateTokens` and `estimateMessageTokens`.
use Prim.Native.Char.{code}
use anime_companion_ai.Prelude.{
  ℕ, ◌+◌, ◌/◌, String, Bool, false, ◌&&◌, ◌||◌, ltb, leb, if◌then◌else◌, ◌≡◌, refl,
}
use anime_companion_ai.Prelude.Text.{trim_space, byte_len}
use anime_companion_ai.Conversation.{Turn}

-- `unicode.IsLetter` or `unicode.IsDigit`, of an ASCII code point.
is_word : ℕ → Bool
is_word r = (leb b'0' r && leb r b'9') || (leb b'A' r && leb r b'Z') || (leb b'a' r && leb r b'z')

-- The loop over the runes, with its three variables.
unfoldable pub scan_runes : String → ℕ → ℕ → Bool → ℕ
unfolding is_word
scan_runes String.[] non_ascii ascii_words in_word = non_ascii + ascii_words
scan_runes (String.◌∷◌ c s) non_ascii ascii_words in_word =
    let r = code c in
    scan_runes s (if ltb 0x7f r then non_ascii + 1 else non_ascii)
      (if ltb 0x7f r
        then ascii_words
        else if is_word r
        then (if in_word then ascii_words else ascii_words + 1)
        else ascii_words)
      (if ltb 0x7f r then false else is_word r)

unfoldable pub estimate_tokens : String → ℕ
unfolding scan_runes trim_space byte_len
estimate_tokens value = scan_runes value 0 0 false + byte_len (trim_space value) / 16

unfoldable pub estimate_message_tokens : Turn → ℕ
unfolding estimate_tokens
estimate_message_tokens message =
    8
    + estimate_tokens message.display_name
    + estimate_tokens message.speaker_id
    + estimate_tokens message.content

estimate_mixed : estimate_tokens "hello, world 你好" ≡ 5
unfolding estimate_tokens
estimate_mixed = refl
