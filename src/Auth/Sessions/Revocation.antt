-- ===== src/Auth/Sessions/Revocation.antt =====
-- internal/auth/service.go: `RevokeAllSessions` and `CurrentUser`.
use anime_companion_ai.Prelude.{
  ℕ, ◌<◌, String, ◌≡◌, ◌≢◌, refl, ◌∙◌, Bool, true, false, Option, none, some, List, if_cases,
  if◌then◌else◌, ◌||◌, contains, eq_refl,
}
use anime_companion_ai.Prelude.Text.{is_empty}
use anime_companion_ai.Redis.{Redis}
use anime_companion_ai.Redis.Link.{Link, answered, unsent, answer_lost, call}
use anime_companion_ai.Redis.Entries.{Entry, absent, text, get, smembers}
use anime_companion_ai.Auth.Sessions.{
  sessions_of, session_key, session_user, store_session, revoke, revoke_listed, revoke_all_sessions,
}
use anime_companion_ai.Auth.Sessions.Listed.{key_of, list_ne_session, session-store_session}
use anime_companion_ai.Auth.Sessions.Dropped.{read-revoke}
use anime_companion_ai.Auth.Sessions.Histories.{
  revoked, revoked-none, Reach, Reach-AllListed, IsEmpty-AllListed,
}

module _ (redis : Redis) (digest : String → String) (session_ttl : ℕ)
    (positive : 0 < session_ttl) where
  open redis use {Db, read, del}

  pub session_user-live :
      (link : Link) (token : String) (db : Db) (i : String)
      → (session_user redis digest session_ttl link token db).0 ≡ some i
      → get (read db (key_of (digest token))) ≡ some i
  unfolding session_user call session_key
  session_user-live answered token db i =
      if_cases
        (λ (r : Option String × Db). r.0 ≡ some i → get (read db (key_of (digest token))) ≡ some i)
        (is_empty token) (λ _ e. absurd (let impossible : none ≡ some i = e in cc)) (λ _ e. e)
  session_user-live unsent token db i =
      if_cases
        (λ (r : Option String × Db). r.0 ≡ some i → get (read db (key_of (digest token))) ≡ some i)
        (is_empty token) (λ _ e. absurd (let impossible : none ≡ some i = e in cc))
        (λ _ e. absurd (let impossible : none ≡ some i = e in cc))
  session_user-live answer_lost token db i =
      if_cases
        (λ (r : Option String × Db). r.0 ≡ some i → get (read db (key_of (digest token))) ≡ some i)
        (is_empty token) (λ _ e. absurd (let impossible : none ≡ some i = e in cc))
        (λ _ e. absurd (let impossible : none ≡ some i = e in cc))

  revoke_listed-done :
      (link : Link) (id : String) (keys : List String) (db : Db)
      → (revoke_listed redis digest session_ttl link id (some keys, db)).0 ≡ true
      → (revoke_listed redis digest session_ttl link id (some keys, db)).1
        ≡ revoke redis digest session_ttl id keys db
  unfolding revoke_listed call
  revoke_listed-done answered id keys db h = refl
  revoke_listed-done unsent id keys db h = absurd (let impossible : false ≡ true = h in cc)
  revoke_listed-done answer_lost id keys db h = absurd (let impossible : false ≡ true = h in cc)

  pub revoke_all_sessions-done :
      (link link' : Link) (id : String) (db : Db)
      → (revoke_all_sessions redis digest session_ttl link link' id db).0 ≡ true
      → (revoke_all_sessions redis digest session_ttl link link' id db).1
        ≡ revoked redis digest session_ttl positive id db
  unfolding revoke_all_sessions call revoke_listed
  revoke_all_sessions-done answered link' id db h =
      revoke_listed-done link' id (smembers (read db (sessions_of id))) db h
  revoke_all_sessions-done unsent link' id db h = absurd (let impossible : false ≡ true = h in cc)
  revoke_all_sessions-done answer_lost link' id db h =
      absurd (let impossible : false ≡ true = h in cc)

  -- After any history of sessions on an empty server in which each earlier revocation is one step, that
  -- is, no login or logout comes between the two calls of a `RevokeAllSessions`: if `RevokeAllSessions` succeeds for a user, then no token is the
  -- session of this user any more, whatever becomes of the call that asks.
  pub revoke_all_sessions-ends :
      (db₀ db : Db)
      → ((j : String) → read db₀ j ≡ absent)
      → Reach redis digest session_ttl positive db₀ db
      → (link link' : Link) (id : String)
      → (revoke_all_sessions redis digest session_ttl link link' id db).0 ≡ true
      → (link'' : Link) (token : String)
      → (session_user redis digest session_ttl link'' token
          (revoke_all_sessions redis digest session_ttl link link' id db).1).0
        ≢ some id
  revoke_all_sessions-ends db₀ db empty reach link link' id done link'' token own =
      let live = session_user-live link'' token _ id own in
      let all =
        Reach-AllListed redis digest session_ttl positive db₀ db
          (IsEmpty-AllListed redis digest session_ttl positive db₀ empty) reach in
      revoked-none redis digest session_ttl positive id db (digest token) all
        (rw (revoke_all_sessions-done link link' id db done) at live)

  -- What a `RevokeAllSessions` leaves whose list was read before another session of the user came.
  unfoldable pub late : String → String → Db → Db
  unfolding session_key
  late token id db =
      revoke redis digest session_ttl id (smembers (read db (sessions_of id)))
        (store_session redis digest session_ttl (session_key redis digest session_ttl token) id db)

  late-live :
      (token id : String) (db : Db)
      → contains (key_of (digest token)) (smembers (read db (sessions_of id))) ≡ false
      → read (late token id db) (key_of (digest token)) ≡ text id
  unfolding late session_key
  late-live token id db new =
      let key = key_of (digest token) in
      read-revoke redis digest session_ttl positive id (smembers (read db (sessions_of id))) _ key
      ∙ rw
          (
            new,
            list_ne_session (digest token) id,
            session-store_session redis digest session_ttl positive (digest token) id db
                (digest token),
            eq_refl key,
          )
          refl

  late-unlisted : (token id : String) (db : Db) → read (late token id db) (sessions_of id) ≡ absent
  unfolding late
  late-unlisted token id db =
      read-revoke redis digest session_ttl positive id (smembers (read db (sessions_of id))) _
        (sessions_of id)
      ∙ rw (eq_refl (sessions_of id))
          (last (contains (sessions_of id) (smembers (read db (sessions_of id)))) _)
    where
      last : (b : Bool) (e : Entry) → (if b || true then absent else e) ≡ absent
      last true e = refl
      last false e = refl

  late-read :
      (token id : String) (db : Db)
      → contains (key_of (digest token)) (smembers (read db (sessions_of id))) ≡ false
      → read
          (revoke_all_sessions redis digest session_ttl answered answered id (late token id db)).1
          (key_of (digest token))
        ≡ text id
  unfolding revoke_all_sessions call revoke_listed
  late-read token id db new =
      let key = key_of (digest token) in
      read-revoke redis digest session_ttl positive id
        (smembers (read (late token id db) (sessions_of id))) (late token id db) key
      ∙ rw (late-unlisted token id db, list_ne_session (digest token) id)
          (late-live token id db new)

  -- If another session of a user is created after `RevokeAllSessions` has read the list of the user's
  -- sessions and before it deletes them, under a key that is not in this list, then its token is still
  -- the user's session afterwards, even when `RevokeAllSessions` is run a second time.
  pub late_session-survives :
      (token id : String) (db : Db)
      → is_empty token ≡ false
      → contains (session_key redis digest session_ttl token) (smembers (read db (sessions_of id)))
        ≡ false
      → (session_user redis digest session_ttl answered token
          (revoke_all_sessions redis digest session_ttl answered answered id
            (late token id db)).1).0
        ≡ some id
  unfolding session_user call session_key
  late_session-survives token id db there new = rw (there, late-read token id db new) refl
