-- ===== src/Wechat/Goodnight/Tests.antt =====
-- Two owners. The token of the manager has expired, and another is issued.
use anime_companion_ai.Prelude.{
  ℕ, ◌+◌, String, ◌≡◌, refl, Option, false, none, some, List, [], ◌∷◌, ◌++◌, str_eq, if_cases,
  if◌then◌else◌,
}
use anime_companion_ai.Prelude.Int.{pos}
use anime_companion_ai.Wechat.Token.{TokenManager, Pushed, sent, token_expired, push_failed, Remote}
use anime_companion_ai.Wechat.Goodnight.{Http, kf_send_text, run_maintenance}
use anime_companion_ai.Wechat.Goodnight.Once.{Sends, came_in, lost, IsUntouched, DeliveryLaws}

-- The messages that arrived, and the number of the calls to send.
abbrev Log : Type 0
Log = List (String × String) × ℕ

abbrev send_text : String → String → String → Log → Pushed × Log
send_text token id text s =
    if str_eq token "T2"
    then (sent, (s.0 ++ ((id, text) ∷ []), s.1 + 1))
    else (token_expired, (s.0, s.1 + 1))

abbrev remote : Remote
remote = record {
  State = Log;
  has_cache = false;
  cache_get = λ s. (none, s);
  cache_set = λ token ttl s. s;
  cache_delete = λ s. s;
  request = λ s. (some (record { access_token = "T2"; expires_in = 7200; err_code = pos 0 }), s);
  send_text = send_text;
}

abbrev untouched : {A : Type 0} → (view : Log → A) → IsUntouched remote view
untouched view = record {
  cache_get_same = λ s. refl;
  cache_set_same = λ token ttl s. refl;
  cache_delete_same = λ s. refl;
  request_same = λ s. refl;
}

abbrev laws : DeliveryLaws remote
laws = record {
  delivered = λ s. s.0;
  tried = λ s. s.1;
  delivered_same = untouched (λ s. s.0);
  tried_same = untouched (λ s. s.1);
  sends = λ token id text s.
      if_cases (λ (r : Pushed × Log). Sends (id, text) s.0 r.1.0 r.0) (str_eq token "T2")
        (λ _. came_in refl refl) (λ _. lost refl refl);
  tries = λ token id text s.
      if_cases (λ (r : Pushed × Log). r.1.1 ≡ s.1 + 1) (str_eq token "T2") (λ _. refl) (λ _. refl);
}

abbrev old_manager : TokenManager
old_manager = record { token = "T1"; expires = 5000 }

abbrev agent : String → Log → Option (List String) × Log
agent target s = (some ("mina" ∷ "yuki" ∷ []), s)

abbrev clock : ℕ → ℕ
clock n = 1000

abbrev format_date : ℕ → String
format_date day = "2026-01-01"

-- Both are reached, the first at the second attempt.
both :
    (run_maintenance remote agent clock format_date 1000 old_manager ([], 0)).state
    ≡ (("mina", "晚安啦！") ∷ ("yuki", "晚安啦！") ∷ [], 3)
unfolding run_maintenance
both = refl

abbrev accepted : String
accepted = "https://api.weixin.qq.com/cgi-bin/message/custom/send?access_token=T2"

abbrev http : Http ℕ
http = record {
  post = λ address body s. (if str_eq body "mina" then some address else none, s);
  payload = λ open_id text. open_id;
  err_code = λ body. some (pos (if str_eq body accepted then 0 else 42001));
}

fresh : (kf_send_text http "T2" "mina" "hello" 0).0 ≡ sent
unfolding kf_send_text
fresh = refl

expired : (kf_send_text http "T1" "mina" "hello" 0).0 ≡ token_expired
unfolding kf_send_text
expired = refl

broken : (kf_send_text http "T1" "yuki" "hello" 0).0 ≡ push_failed
unfolding kf_send_text
broken = refl
