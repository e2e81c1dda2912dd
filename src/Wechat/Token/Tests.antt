-- ===== src/Wechat/Token/Tests.antt =====
-- A manager without a token, whose cache is empty.
use anime_companion_ai.Prelude.{ℕ, suc, ◌≡◌, refl, true, false, none, some, ok}
use anime_companion_ai.Prelude.Int.{pos}
use anime_companion_ai.Prelude.Text.{is_empty}
use anime_companion_ai.Wechat.Token.{TokenManager, Remote, sent, get_token}
use anime_companion_ai.Wechat.Token.Renewal.{get_token-keeps}

abbrev remote : Remote
remote = record {
  State = ℕ;
  has_cache = true;
  cache_get = λ s. (none, suc s);
  cache_set = λ token ttl s. suc s;
  cache_delete = λ s. suc s;
  request =
      λ s. (some (record { access_token = "T1"; expires_in = 7200; err_code = pos 0 }), suc s);
  send_text = λ token open_id text s. (sent, suc s);
}

abbrev empty_manager : TokenManager
empty_manager = record { token = ""; expires = 0 }

fetched : (get_token remote 1000 empty_manager 0).result ≡ ok "T1"
unfolding get_token
fetched = refl

get_token-keeps_example :
    (is_empty "T1" ≡ false) × ((get_token remote 1000 empty_manager 0).manager.token ≡ "T1")
get_token-keeps_example = get_token-keeps remote 1000 empty_manager 0 "T1" fetched
