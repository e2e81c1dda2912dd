-- ===== src/Gateway/Accounts/Logout.antt =====
-- internal/gateway/auth_handler.go: `authLogout` and `requireUser`.
use anime_companion_ai.Prelude.{
  ◌<◌, String, ◌≡◌, refl, sym, ap, ◌∙◌, Bool, true, false, Option, none, some, err, eq_refl,
  Option-cases, inl, inr,
}
use anime_companion_ai.Prelude.Text.{is_empty}
use anime_companion_ai.Redis.{Redis}
use anime_companion_ai.Redis.Entries.{absent, get}
use anime_companion_ai.Redis.Link.{Link, answered, unsent, answer_lost, call}
use anime_companion_ai.Auth.Sessions.{
  is_done, or_empty, found, session_key, session_user, drop_session, logout,
}
use anime_companion_ai.Auth.Sessions.Listed.{key_of}
use anime_companion_ai.Auth.Sessions.Dropped.{drop_session-session, get_absent}
use anime_companion_ai.Auth.Sessions.Revocation.{session_user-live}
use anime_companion_ai.Auth.Service.{Accounts, Passwords, World, current_user, user_of}
use anime_companion_ai.Auth.Service.Codes.{Notation, Text, Config}
use anime_companion_ai.Gateway.Accounts.{
  said, api_error, cleared, kept, required, Chance, auth_logout, require_user,
}

module _ (redis : Redis) (text : Text) (notation : Notation) (config : Config)
    (passwords : Passwords) (accounts : Accounts) (positive : 0 < config.session_ttl) where
  open redis use {Db, read}
  open text use {digest}

  abbrev World' : Type 0
  World' = World redis text notation config passwords accounts

  abbrev dropping : String → String → Db → Unit {0} × Db
  dropping token id d = (
    tt,
    drop_session redis digest config.session_ttl (session_key redis digest config.session_ttl token)
        id d,
  )

  -- The pipeline, where it is known to be done.
  dropped-gone :
      (link : Link) (token id : String) (db : Db)
      → is_done (call link (dropping token id) db).0 ≡ true
      → read (call link (dropping token id) db).1 (key_of (digest token)) ≡ absent
  unfolding call session_key
  dropped-gone answered token id db h =
      drop_session-session redis digest config.session_ttl positive (digest token) id db
        (digest token)
      ∙ rw (eq_refl (key_of (digest token))) refl
  dropped-gone unsent token id db h = absurd (let impossible : false ≡ true = h in cc)
  dropped-gone answer_lost token id db h = absurd (let impossible : false ≡ true = h in cc)

  logout-gone :
      (link link' : Link) (token : String) (db : Db)
      → is_empty token ≡ false
      → (logout redis digest config.session_ttl link link' token db).0 ≡ true
      → read (logout redis digest config.session_ttl link link' token db).1 (key_of (digest token))
        ≡ absent
  unfolding logout
  logout-gone link link' token db named h =
      let read_key : Db → Option String × Db =
        λ d. (get (read d (session_key redis digest config.session_ttl token)), d) in
      let asked = call link read_key db in
      rw named (dropped-gone link' token (or_empty (found asked.0)) asked.1 (rw named at h))

  session_user-gone :
      (link : Link) (token : String) (db : Db)
      → read db (key_of (digest token)) ≡ absent
      → (session_user redis digest config.session_ttl link token db).0 ≡ none
  session_user-gone link token db gone =
      elim (Option-cases (session_user redis digest config.session_ttl link token db).0) [
        | inl e ↦ e
        | inr (i, e) ↦ absurd (
            get_absent i (
              ap get (sym gone)
              ∙ session_user-live redis digest config.session_ttl positive link token db i e))
      ]

  done_is :
      (done : Bool)
      → (elim done [ true ↦ said 204 "" cleared | false ↦ api_error 503 "logout_failed" kept ])
        ≡ said 204 "" cleared
      → done ≡ true
  done_is true h = refl
  done_is false h =
      absurd (let impossible : api_error 503 "logout_failed" kept ≡ said 204 "" cleared = h in cc)

  -- If `authLogout` answers that it is done, for a cookie with a token, then `requireUser` refuses this
  -- token afterwards and clears the cookie, whatever becomes of its call.
  pub auth_logout-ends :
      (c : Chance redis text notation config passwords accounts) (token : String) (w : World')
      → is_empty token ≡ false
      → (auth_logout redis text notation config passwords accounts c (some token) w).0
        ≡ said 204 "" cleared
      → (link : Link)
      → (require_user redis text notation config passwords accounts link
          (some token)
          (auth_logout redis text notation config passwords accounts c (some token) w).1).0
        ≡ err (api_error 401 "unauthorized" cleared)
  unfolding auth_logout require_user current_user user_of
  auth_logout-ends c token w named h link =
      let gone = logout-gone (c.link 1) (c.link 2) token w.db named (done_is _ h) in
      let after = (auth_logout redis text notation config passwords accounts c (some token) w).1 in
      ap (λ id. required (user_of redis text notation config passwords accounts id after))
        (session_user-gone link token after.db gone)
