-- ===== src/Orchestration/Reply/Tests.antt =====
-- The clean-up of replies that start with headers.
use anime_companion_ai.Prelude.{◌≡◌, refl, false, [], arith}
use anime_companion_ai.Prelude.Text.{rune_count}
use anime_companion_ai.Persona.Registry.{Character}
use anime_companion_ai.Orchestration.Reply.{strip_repeated}
use anime_companion_ai.Orchestration.Reply.Clean.{starts_as, starts_as-strip_repeated}

abbrev kyon : Character
kyon = record {
  id = "kyon";
  display_name = "阿虚";
  aliases = [];
  avatar_url = "";
  description = "";
  system_prompt = "";
}

stripped : strip_repeated 17 "阿虚：kyon: 哦" kyon ≡ "哦"
unfolding strip_repeated
stripped = refl

starts_as-strip_repeated_example : starts_as kyon (strip_repeated 17 "阿虚：kyon: 哦" kyon) ≡ false
unfolding rune_count
starts_as-strip_repeated_example = starts_as-strip_repeated 17 "阿虚：kyon: 哦" kyon (omega arith)
