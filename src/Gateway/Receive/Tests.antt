-- ===== src/Gateway/Receive/Tests.antt =====
-- WeChat sends a message of Mina a second time, after another one.
use anime_companion_ai.Prelude.{
  ℕ, suc, String, ◌≡◌, ◌≢◌, refl, sym, ◌∙◌, true, false, none, some, [], ◌∷◌, arith,
}
use anime_companion_ai.Prelude.Text.{is_empty}
use anime_companion_ai.Redis.Link.{Link, answered}
use anime_companion_ai.Redis.Memory.{memory}
use anime_companion_ai.Gateway.Receive.{
  IncomingMessage, Services, World, msg_deduper, seen_or_add_locked, after_dedupe, allow_open_id,
  accept, receive, handle_async, run_job, deliver,
}
use anime_companion_ai.Gateway.Receive.Dedupers.{
  DeduperLaws, msg_deduper-DeduperLaws, redis_deduper, redis_deduper-DeduperLaws,
}
use anime_companion_ai.Gateway.Receive.Once.{Requests, deliver_all, accept-once}

-- The pushes are counted.
abbrev services : Services
services = record {
  State = ℕ;
  has_limiter = false;
  allow = λ open_id s. (none, s);
  reply = λ channel open_id text s. (some "好。", s);
  push = λ open_id text s. suc s;
}

abbrev message : String → IncomingMessage
message id = record {
  to_user_name = "haruhi";
  from_user_name = "mina";
  msg_type = "text";
  content = "你好";
  msg_id = id;
}

abbrev start : World msg_deduper services
start = record { seen = []; rest = 0 }

abbrev between : Requests msg_deduper msg_deduper-DeduperLaws services
between = (true, some (message "m2")) ∷ (false, none) ∷ []

then : World msg_deduper services
unfolding deliver
then =
    deliver_all msg_deduper msg_deduper-DeduperLaws services between
      (deliver msg_deduper services true (some (message "m1")) start)

named : is_empty "m1" ≡ false
unfolding is_empty
named = refl

new : (seen_or_add_locked "m1" []).0 ≡ some false
unfolding seen_or_add_locked is_empty
new = refl

known : (seen_or_add_locked "m1" then.seen).0 ≡ some true
unfolding then deliver_all deliver receive accept after_dedupe allow_open_id run_job handle_async
    seen_or_add_locked is_empty
known = refl

answered_one : some true ≢ none
answered_one e = cc

accept-once_example : (accept msg_deduper services (some (message "m1")) then).0 ≡ none
unfolding then
accept-once_example =
    accept-once msg_deduper msg_deduper-DeduperLaws services (message "m1") (message "m1") start
      between named refl new refl (λ e. answered_one (sym known ∙ e))

always : ℕ → Link
always tick = answered

redis_deduper-DeduperLaws_example :
    DeduperLaws (redis_deduper memory "msg:" 60000 (omega arith) always)
redis_deduper-DeduperLaws_example =
    redis_deduper-DeduperLaws memory "msg:" 60000 (omega arith) always
