-- ===== src/Wechat/Goodnight/Once.antt =====
-- internal/gateway/cron.go: who is wished a good night, and how often.
use anime_companion_ai.Prelude.{
  ℕ, ◌+◌, ◌*◌, ◌≤◌, String, ◌≡◌, Bool, true, false, Option, none, some, List, [], ◌∷◌, ◌++◌, length,
}
use anime_companion_ai.Persona.Registry.{good_night}
use anime_companion_ai.Wechat.Token.{
  Pushed, sent, token_expired, Remote, PushResult, no_token, answered, Delivery,
}
use anime_companion_ai.Wechat.Goodnight.{Greeted}

abbrev pub is_sent : Pushed → Bool
is_sent sent = true
is_sent _ = false

abbrev is_refused : Pushed → Bool
is_refused token_expired = true
is_refused _ = false

-- A call that sends a message: it arrives, which an expired token excludes, or it is lost, which the
-- answer that it was sent excludes. Another error leaves it open.
pub data Sends (message : String × String) (before after : List (String × String)) (pushed : Pushed)
    : Type 0 where
  came_in :
      after ≡ before ++ (message ∷ [])
      → is_refused pushed ≡ false
      → Sends message before after pushed
  lost : after ≡ before → is_sent pushed ≡ false → Sends message before after pushed

-- A view of the state that only the calls that send change.
pub record IsUntouched (remote : Remote) {A : Type 0} (view : remote.State → A) : Type 0 where
  pub cache_get_same : (s : remote.State) → view (remote.cache_get s).1 ≡ view s
  pub cache_set_same :
      (token : String) (ttl : ℕ) (s : remote.State) → view (remote.cache_set token ttl s) ≡ view s
  pub cache_delete_same : (s : remote.State) → view (remote.cache_delete s) ≡ view s
  pub request_same : (s : remote.State) → view (remote.request s).1 ≡ view s

-- What the owners have been sent, in order, and how often a call tried to send something.
pub record DeliveryLaws (remote : Remote) : Type 0 where
  pub delivered : remote.State → List (String × String)
  pub tried : remote.State → ℕ
  pub delivered_same : IsUntouched remote delivered
  pub tried_same : IsUntouched remote tried
  pub sends :
      (token id text : String) (s : remote.State)
      → Sends
          (id, text)
          (delivered s)
          (delivered (remote.send_text token id text s).1)
          (remote.send_text token id text s).0
  pub tries :
      (token id text : String) (s : remote.State)
      → tried (remote.send_text token id text s).1 ≡ tried s + 1

module _ (remote : Remote) (laws : DeliveryLaws remote) where
  open remote use {State}
  open laws use {delivered, tried, delivered_same, tried_same}

  abbrev pub succeeded : PushResult remote → Bool
  succeeded (no_token e) = false
  succeeded (answered pushed) = is_sent pushed

  abbrev refused : PushResult remote → Bool
  refused (no_token e) = false
  refused (answered pushed) = is_refused pushed

  -- A push sends its message once at most, and once if it succeeds.
  data IsOnce (message : String × String) (before : List (String × String)) (d : Delivery remote)
      : Type 0 where
    arrived :
        delivered d.state ≡ before ++ (message ∷ [])
        → refused d.result ≡ false
        → IsOnce message before d
    missed : delivered d.state ≡ before → succeeded d.result ≡ false → IsOnce message before d

  -- The messages of some of the owners, in their order: all whose push succeeded, and nobody twice.
  pub data Reached : List String → List (PushResult remote) → List (String × String) → Type 0 where
    nobody : Reached [] [] []
    reached :
        (id : String) (r : PushResult remote) (ids : List String) (rs : List (PushResult remote))
        (ms : List (String × String))
        → Reached ids rs ms
        → Reached (id ∷ ids) (r ∷ rs) ((id, good_night) ∷ ms)
    passed_over :
        (id : String) (r : PushResult remote) (ids : List String) (rs : List (PushResult remote))
        (ms : List (String × String))
        → succeeded r ≡ false
        → Reached ids rs ms
        → Reached (id ∷ ids) (r ∷ rs) ms

  module _ (agent : String → State → Option (List String) × State) (clock : ℕ → ℕ) where
    pub record AreGreeted (ids : List String) (before : List (String × String)) (n : ℕ)
        (g : Greeted remote agent clock) : Type 0 where
      pub messages : List (String × String)
      pub each : Reached ids g.results messages
      pub added : delivered g.state ≡ before ++ messages
      pub at_most_twice : tried g.state ≤ n + 2 * length ids

    abbrev pub found : Option (List String) → List String
    found none = []
    found (some ids) = ids
