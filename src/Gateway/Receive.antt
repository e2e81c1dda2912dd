-- ===== src/Gateway/Receive.antt =====
-- internal/gateway/wechat_handler.go: `receive` and `handleAsync`, the signature of
-- internal/wechat/verify.go and the deduplication of internal/gateway/dedupe.go.
pub mod Dedupers
pub mod Once
pub mod Tests
use Prim.Native.String.{◌++◌}
use anime_companion_ai.Prelude.{
  String, Bool, true, false, not, Option, none, some, List, [], ◌∷◌, str_eq, contains,
  if◌then◌else◌,
}
use anime_companion_ai.Prelude.Text.{is_empty}
use anime_companion_ai.Orchestration.Maintenance.{sort_texts}

-- `IncomingMessage`
pub record IncomingMessage : Type 0 where
  pub to_user_name : String
  pub from_user_name : String
  pub msg_type : String
  pub content : String
  pub msg_id : String

-- `MessageDeduper`; `none` is an error.
pub record Deduper : Type 1 where
  pub State : Type 0
  pub seen_or_add : String → State → Option Bool × State

-- `MsgDeduper`; the mutex makes each call one step.
unfoldable pub seen_or_add_locked : String → List String → Option Bool × List String
unfolding is_empty
seen_or_add_locked id seen =
    if is_empty id
    then (some false, seen)
    else if contains id seen
    then (some true, seen)
    else (some false, id ∷ seen)

abbrev pub msg_deduper : Deduper
msg_deduper = record { State = List String; seen_or_add = seen_or_add_locked }

-- `RateLimiter`, if there is one, `Agent.Reply`, and `pushTextWithTokenRefresh`, whose error is only
-- logged.
pub record Services : Type 1 where
  pub State : Type 0
  pub has_limiter : Bool
  pub allow : String → State → Option Bool × State
  pub reply : String → String → String → State → Option String × State
  pub push : String → String → State → State

abbrev joined : List String → String
joined [] = ""
joined (s ∷ ss) = s ++ joined ss

-- `CheckSignature`; `sha1_hex` is the hash, in hexadecimal.
unfoldable pub check_signature : (String → String) → String → String → String → String → Bool
unfolding sort_texts
check_signature sha1_hex token timestamp nonce signature =
    str_eq (sha1_hex (joined (sort_texts (token ∷ timestamp ∷ nonce ∷ [])))) signature

-- The responses of the handler.
pub data HttpAnswer : Type 0 where
  invalid_signature success : HttpAnswer

-- What is left to do after the response: the text of a person.
pub record Job : Type 0 where
  pub open_id : String
  pub text : String

abbrev pub fallback : Option String → String
fallback none = "哼，本小姐突然走神了，再说一遍！"
fallback (some reply) = reply

abbrev limited : Option Bool → Bool
limited none = true
limited (some granted) = granted

module _ (deduper : Deduper) (services : Services) where
  open deduper use {seen_or_add}
  open services use {has_limiter, allow, reply, push}

  pub record World : Type 0 where
    pub seen : deduper.State
    pub rest : services.State

  -- `allowOpenID`
  unfoldable pub allow_open_id : String → World → Bool × World
  allow_open_id open_id w =
      let (granted, s) = allow open_id w.rest in
      if has_limiter then (limited granted, record w { rest = s }) else (true, w)

  -- `handleAsync`
  unfoldable pub handle_async : Job → World → World
  handle_async job w =
      let (answer, s) = reply "wechat" job.open_id job.text w.rest in
      record w { rest = push job.open_id (fallback answer) s }

  after_dedupe : IncomingMessage → Option Bool → World → Option Job × World
  unfolding allow_open_id
  after_dedupe m (some true) w = (none, w)
  after_dedupe m _ w =
      let (granted, w') = allow_open_id m.from_user_name w in
      (if granted then some (record { open_id = m.from_user_name; text = m.content }) else none, w')

  -- From the body of the request on; `none` is one that cannot be read.
  unfoldable pub accept : Option IncomingMessage → World → Option Job × World
  unfolding after_dedupe
  accept none w = (none, w)
  accept (some m) w =
      let (seen, s) = seen_or_add m.msg_id w.seen in
      let job = after_dedupe m seen (record w { seen = s }) in
      if str_eq m.msg_type "text" then job else (none, w)

  -- `receive`; `signed` is whether `CheckSignature` accepts.
  unfoldable pub receive : Bool → Option IncomingMessage → World → HttpAnswer × Option Job × World
  unfolding accept
  receive signed body w =
      let (job, w') = accept body w in
      if signed then (success, job, w') else (invalid_signature, none, w)

  -- The goroutine, where one is started.
  run_job : Option Job → World → World
  unfolding handle_async
  run_job none w = w
  run_job (some job) w = handle_async job w

  -- A request with what follows its response.
  unfoldable pub deliver : Bool → Option IncomingMessage → World → World
  unfolding receive run_job
  deliver signed body w = let (answer, job, w') = receive signed body w in run_job job w'
