-- ===== src/Conversation/Keys/Members.antt =====
-- internal/conversation: the members of the active sets, read back.
use Prim.Native.Char.{Char, code}
use text.Mathlib.TextLemmas.{nil-append, cons-append, append_assoc}
use Prim.Native.String.{◌++◌}
use anime_companion_ai.Prelude.{
  String, ◌≡◌, refl, ap, ◌∙◌, Bool, true, false, not, ◌&&◌, ◌||◌, some, ◌==◌, arith,
}
use anime_companion_ai.Prelude.Text.{is_empty}
use anime_companion_ai.Conversation.{Scope}
use anime_companion_ai.Conversation.Keys.{
  active_member, active_scope_member, cut, scope_of, scope_of_parts, parse_scope_member,
}

abbrev bar : Char
bar = "|"

-- No bar stands in the text.
unfoldable pub no_bar : String → Bool
no_bar String.[] = true
no_bar (String.◌∷◌ c s) = not (code c == b'|') && no_bar s

bar-append : (t : String) → "|" ++ t ≡ String.◌∷◌ bar t
bar-append t = cons-append bar String.[] t ∙ ap (String.◌∷◌ bar) (nil-append t)

cut_at_bar : (s t : String) → no_bar s ≡ true → cut (s ++ String.◌∷◌ bar t) ≡ some (s, t)
unfolding cut no_bar
cut_at_bar String.[] t h = rw (nil-append (String.◌∷◌ bar t)) refl
cut_at_bar (String.◌∷◌ c s) t h =
    rw (cons-append c s (String.◌∷◌ bar t)) (ground (arith, cut_at_bar s t))

cut-bar : (s t : String) → no_bar s ≡ true → cut (s ++ ("|" ++ t)) ≡ some (s, t)
cut-bar s t h = rw (bar-append t) (cut_at_bar s t h)

-- A scope is read back from its member of the active set, if its channel and its external id hold no
-- bar and none of its three parts is empty.
pub parse_scope_member-active_scope_member :
    (scope : Scope)
    → no_bar scope.identity.channel ≡ true
    → no_bar scope.identity.external_id ≡ true
    → (is_empty scope.identity.channel
        || is_empty scope.identity.external_id
        || is_empty scope.conversation_id)
      ≡ false
    → parse_scope_member (active_scope_member scope) ≡ some scope
unfolding parse_scope_member scope_of_parts scope_of active_scope_member active_member
parse_scope_member-active_scope_member scope c e h =
    let channel = scope.identity.channel in
    let id = scope.identity.external_id in
    let conversation = scope.conversation_id in
    let nested : (channel ++ ("|" ++ id)) ++ ("|" ++ conversation)
        ≡ channel ++ ("|" ++ (id ++ ("|" ++ conversation))) =
      append_assoc channel ("|" ++ id) ("|" ++ conversation)
      ∙ ap (◌++◌ channel) (append_assoc "|" id ("|" ++ conversation)) in
    rw (nested, cut-bar channel (id ++ ("|" ++ conversation)) c, cut-bar id conversation e, h) refl
