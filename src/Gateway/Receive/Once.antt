-- ===== src/Gateway/Receive/Once.antt =====
-- internal/gateway/wechat_handler.go: a message that WeChat sends more than once.
use anime_companion_ai.Prelude.{
  String, ◌≡◌, ◌≢◌, refl, sym, ◌∙◌, Bool, true, false, Option, none, some, List, [], ◌∷◌, str_eq,
  eq_iff, if_cases,
}
use anime_companion_ai.Prelude.Text.{is_empty}
use anime_companion_ai.Gateway.Receive.{
  IncomingMessage, Deduper, Services, Job, World, after_dedupe, allow_open_id, accept, receive,
  handle_async, run_job, deliver,
}
use anime_companion_ai.Gateway.Receive.Dedupers.{DeduperLaws}

module _ (deduper : Deduper) (laws : DeduperLaws deduper) (services : Services) where
  open deduper use {seen_or_add}
  open laws use {Knows}

  -- A request: whether it is signed, and its body.
  abbrev pub Requests : Type 0
  Requests = List (Bool × Option IncomingMessage)

  unfoldable pub deliver_all : Requests → World deduper services → World deduper services
  unfolding deliver
  deliver_all [] w = w
  deliver_all ((signed, body) ∷ requests) w =
      deliver_all requests (deliver deduper services signed body w)

  -- The ids are not touched behind the deduplication.
  after_dedupe-seen :
      (m : IncomingMessage) (seen : Option Bool) (w : World deduper services)
      → (after_dedupe deduper services m seen w).1.seen ≡ w.seen
  unfolding after_dedupe allow_open_id
  after_dedupe-seen m (some true) w = refl
  after_dedupe-seen m (some false) w =
      if_cases (λ (r : Bool × World deduper services). r.1.seen ≡ w.seen) services.has_limiter
        (λ _. refl) (λ _. refl)
  after_dedupe-seen m none w =
      if_cases (λ (r : Bool × World deduper services). r.1.seen ≡ w.seen) services.has_limiter
        (λ _. refl) (λ _. refl)

  accept-Knows :
      (id : String) (body : Option IncomingMessage) (w : World deduper services)
      → Knows id w.seen
      → Knows id (accept deduper services body w).1.seen
  unfolding accept
  accept-Knows id none w h = h
  accept-Knows id (some m) w h =
      if_cases (λ (r : Option Job × World deduper services). Knows id r.1.seen)
        (str_eq m.msg_type "text")
        (λ _. rw (after_dedupe-seen m _ _) (laws.keeps id m.msg_id w.seen h)) (λ _. h)

  run_job-seen :
      (job : Option Job) (w : World deduper services)
      → (run_job deduper services job w).seen ≡ w.seen
  unfolding run_job handle_async
  run_job-seen none w = refl
  run_job-seen (some job) w = refl

  deliver-Knows :
      (id : String) (signed : Bool) (body : Option IncomingMessage) (w : World deduper services)
      → Knows id w.seen
      → Knows id (deliver deduper services signed body w).seen
  unfolding deliver receive
  deliver-Knows id true body w h =
      let accepted = accept deduper services body w in
      rw (run_job-seen accepted.0 accepted.1) (accept-Knows id body w h)
  deliver-Knows id false body w h = rw (run_job-seen none w) h

  -- The first of the messages.
  delivered-Knows :
      (m : IncomingMessage) (w : World deduper services)
      → is_empty m.msg_id ≡ false
      → m.msg_type ≡ "text"
      → (seen_or_add m.msg_id w.seen).0 ≡ some false
      → Knows m.msg_id (deliver deduper services true (some m) w).seen
  unfolding deliver receive accept
  delivered-Knows m w named kind new =
      let accepted = accept deduper services (some m) w in
      rw (run_job-seen accepted.0 accepted.1) (
        if_cases (λ (r : Option Job × World deduper services). Knows m.msg_id r.1.seen)
          (str_eq m.msg_type "text")
          (λ _. rw (after_dedupe-seen m _ _) (laws.adds m.msg_id w.seen named new))
          (λ e.
            absurd
              (let impossible : true ≡ false = sym ((eq_iff m.msg_type "text").1 kind) ∙ e in cc)))

  deliver_all-Knows :
      (id : String) (requests : Requests) (w : World deduper services)
      → Knows id w.seen
      → Knows id (deliver_all requests w).seen
  unfolding deliver_all
  deliver_all-Knows id [] w h = h
  deliver_all-Knows id ((signed, body) ∷ requests) w h =
      deliver_all-Knows id requests (deliver deduper services signed body w)
        (deliver-Knows id signed body w h)

  no_job :
      (m : IncomingMessage) (seen : Option Bool) (w : World deduper services)
      → seen ≢ none
      → seen ≢ some false
      → (after_dedupe deduper services m seen w).0 ≡ none
  unfolding after_dedupe
  no_job m none w h k = absurd (h refl)
  no_job m (some true) w h k = refl
  no_job m (some false) w h k = absurd (k refl)

  -- For a deduplication that keeps the laws, in histories where no id expires: once a message with an id
  -- has been accepted as new, then whatever requests are handled in between, no message with the same id
  -- leads to a reply again, if the deduplication answers when it comes again.
  pub accept-once :
      (first again : IncomingMessage) (w : World deduper services) (requests : Requests)
      → is_empty first.msg_id ≡ false
      → first.msg_type ≡ "text"
      → (seen_or_add first.msg_id w.seen).0 ≡ some false
      → again.msg_id ≡ first.msg_id
      → (seen_or_add again.msg_id
          (deliver_all requests (deliver deduper services true (some first) w)).seen).0
        ≢ none
      → (accept deduper services
          (some again)
          (deliver_all requests (deliver deduper services true (some first) w))).0
        ≡ none
  unfolding accept
  accept-once first again w requests named kind new same answers =
      let w' = deliver_all requests (deliver deduper services true (some first) w) in
      let known =
        deliver_all-Knows first.msg_id requests (deliver deduper services true (some first) w)
          (delivered-Knows first w named kind new) in
      let called = seen_or_add again.msg_id w'.seen in
      if_cases (λ (r : Option Job × World deduper services). r.0 ≡ none)
        (str_eq again.msg_type "text")
        (λ _.
          no_job again called.0 (record w' { seen = called.1 }) answers
            (rw same (laws.recognises first.msg_id w'.seen named known)))
        (λ _. refl)
