-- ===== src/Gateway/Api/Tests.antt =====
-- Requests to services that note in whose name they are called.
use anime_companion_ai.Prelude.{
  String, ◌≡◌, ◌≢◌, refl, Bool, true, false, none, List, [], ◌∷◌, contains, Result, ok, err,
}
use mathlib.Core.Path.{subst}
use anime_companion_ai.Quota.Types.{Subject, no_reservation, no_snapshot}
use anime_companion_ai.Gateway.Messages.{Services, Response, other_code, api_error}
use anime_companion_ai.Gateway.Api.{
  Caller, Route, full_accounts, no_accounts, account_route, login, logout, answered, chat,
  alias_list, deprecated, messages, no_route, conversation_send, serve,
}
use anime_companion_ai.Gateway.Api.Guarded.{KeptBy, serve_keeps}

abbrev services : Services
services = record {
  State = List String;
  has_quota = true;
  allow = λ user s. (true, user.user_id ∷ s);
  reserve = λ user id s. (
    record { reservation = no_reservation; snapshot = no_snapshot; error = none },
    user.user_id ∷ s,
  );
  settle = λ reservation outcome s. (record { snapshot = no_snapshot; error = none }, s);
  send = λ user conversation content id s. (err other_code, user.user_id ∷ s);
}

abbrev caller : Caller services
caller = record {
  allow_owner = λ id s. (true, id ∷ s);
  list_spaces = λ channel id s. (ok [], id ∷ s);
  list_conversation = λ channel id conversation s. (ok [], id ∷ s);
  delete_conversation = λ channel id conversation s. (none, id ∷ s);
  reply = λ channel id text s. (ok "哼！", id ∷ s);
  list_legacy = λ channel id s. (ok [], id ∷ s);
  delete_legacy = λ channel id s. (none, id ∷ s);
  check = λ s. none;
  account = λ route s. (api_error 200 "ok", s);
}

abbrev is_uuid : String → Bool
is_uuid s = true

abbrev mina : Subject
mina = record { user_id = "mina"; is_admin = false }

abbrev sending : Route
sending = conversation_send true "group-sos" "你好" "request-1"

listed_by_alias :
    serve services caller is_uuid full_accounts (ok mina) alias_list []
    ≡ (deprecated (messages []), "mina" ∷ [])
unfolding serve
listed_by_alias = refl

-- The older chat is not there where there are accounts.
not_there : serve services caller is_uuid full_accounts (ok mina) (chat none) [] ≡ (no_route, [])
unfolding serve
not_there = refl

-- Nothing is called in the name of yuki.
abbrev Spared : List String → Type 0
Spared log = contains "yuki" log ≡ false

spares : KeptBy services caller is_uuid mina Spared
spares = record {
  allowed = λ s h. h;
  reserved = λ id s h. h;
  settled = λ id s₀ outcome s h. h;
  sent = λ conversation content id s h. h;
  spaces_listed = λ s h. h;
  listed = λ conversation s h. h;
  deleted = λ conversation s h. h;
}

abbrev caller_is_mina : Result Response Subject
caller_is_mina = ok mina

only_mina : (user : Subject) → caller_is_mina ≡ ok user → KeptBy services caller is_uuid user Spared
only_mina user e =
    subst (λ u. KeptBy services caller is_uuid u Spared) (let same : mina ≡ user = cc in same)
      spares

full_not_none : full_accounts ≢ no_accounts
full_not_none e = cc

-- A logout needs a user, and a login does not.
stranger_out :
    serve services caller is_uuid full_accounts
      (err (api_error 401 "unauthorized"))
      (account_route logout)
      []
    ≡ (answered (api_error 401 "unauthorized"), [])
unfolding serve
stranger_out = refl

stranger_in :
    serve services caller is_uuid full_accounts
      (err (api_error 401 "unauthorized"))
      (account_route login)
      []
    ≡ (answered (api_error 200 "ok"), [])
unfolding serve
stranger_in = refl

serve_keeps_example :
    Spared (serve services caller is_uuid full_accounts caller_is_mina sending []).1
serve_keeps_example =
    serve_keeps services caller is_uuid full_accounts full_not_none caller_is_mina Spared only_mina
      sending refl [] refl
