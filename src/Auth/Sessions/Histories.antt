-- ===== src/Auth/Sessions/Histories.antt =====
-- internal/auth/service.go: the histories of the sessions.
use anime_companion_ai.Prelude.{
  ℕ, ◌<◌, String, ◌≡◌, ◌≢◌, refl, sym, ap, ◌∙◌, ◌⊎◌, inl, inr, Bool, true, false, ◌||◌, none, some,
  if◌then◌else◌, contains, str_eq, eq_iff, Bool-cases,
}
use anime_companion_ai.Redis.{Redis}
use anime_companion_ai.Redis.Entries.{Entry, absent, get, smembers}
use anime_companion_ai.Auth.Sessions.{sessions_of, session_key, store_session, drop_session, revoke}
use anime_companion_ai.Auth.Sessions.Listed.{
  key_of, list_ne_session, AllListed, store_session-AllListed,
}
use anime_companion_ai.Auth.Sessions.Dropped.{drop_session-AllListed, read-revoke}

kept-get :
    (b : Bool) (e : Entry) (i : String)
    → get (if b then absent else e) ≡ some i
    → (b ≡ false) × (get e ≡ some i)
kept-get false e i h = (refl, h)
kept-get true e i h = absurd (let impossible : none ≡ some i = h in cc)

drop_false : (b : Bool) (x y : Entry) → (if b || false then x else y) ≡ (if b then x else y)
drop_false true x y = refl
drop_false false x y = refl

module _ (redis : Redis) (digest : String → String) (session_ttl : ℕ)
    (positive : 0 < session_ttl) where
  open redis use {Db, read}

  abbrev pub Listed' : Db → Type 0
  Listed' db = AllListed redis digest session_ttl positive db

  abbrev pub revoked : String → Db → Db
  revoked id db = revoke redis digest session_ttl id (smembers (read db (sessions_of id))) db

  revoked-session :
      (id : String) (db : Db) (d i : String)
      → get (read (revoked id db) (key_of d)) ≡ some i
      → (contains (key_of d) (smembers (read db (sessions_of id))) ≡ false)
        × (get (read db (key_of d)) ≡ some i)
  revoked-session id db d i own =
      let keys = smembers (read db (sessions_of id)) in
      kept-get (contains (key_of d) keys) (read db (key_of d)) i (
        ap get (
          sym (
            read-revoke redis digest session_ttl positive id keys db (key_of d)
            ∙ rw (list_ne_session d id)
                (drop_false (contains (key_of d) keys) absent (read db (key_of d)))))
        ∙ own)

  revoked-list :
      (id : String) (db : Db) (i : String)
      → Listed' db
      → read (revoked id db) (sessions_of i)
        ≡ (if str_eq (sessions_of id) (sessions_of i) then absent else read db (sessions_of i))
  revoked-list id db i h =
      read-revoke redis digest session_ttl positive id (smembers (read db (sessions_of id))) db
        (sessions_of i)
      ∙ rw (h.sessions_only id i) refl

  -- No session of the user is left.
  pub revoked-none :
      (id : String) (db : Db) (d : String)
      → Listed' db
      → get (read (revoked id db) (key_of d)) ≢ some id
  revoked-none id db d h own =
      let (out, live) = revoked-session id db d id own in
      let inside = h.listed d id live in
      absurd (let impossible : false ≡ true = sym out ∙ inside in cc)

  revoked-AllListed : (id : String) (db : Db) → Listed' db → Listed' (revoked id db)
  revoked-AllListed id db h = record {
    listed = λ d i own.
        let (out, live) = revoked-session id db d i own in
        let inside = h.listed d i live in
        rw (revoked-list id db i h) (elim (Bool-cases (str_eq (sessions_of id) (sessions_of i))) [
          | inr e ↦ rw e inside
          | inl e ↦
              let same : sessions_of id ≡ sessions_of i =
                (eq_iff (sessions_of id) (sessions_of i)).0 e in
              let out' = (rw same at out) in
              absurd (let impossible : false ≡ true = sym out' ∙ inside in cc)
        ]);
    lists = λ i.
        rw (revoked-list id db i h) (elim (Bool-cases (str_eq (sessions_of id) (sessions_of i))) [
          | inl e ↦ rw e tt
          | inr e ↦ rw e (h.lists i)
        ]);
    sessions_only = λ i j.
        rw (revoked-list id db i h) (elim (Bool-cases (str_eq (sessions_of id) (sessions_of i))) [
          | inl e ↦ rw e refl
          | inr e ↦ rw e (h.sessions_only i j)
        ]);
  }

  -- What happens to the sessions: the pipelines of `createSession` and `Logout`, a `RevokeAllSessions`
  -- with no other call between its own two, and whatever else happens in Redis, keys that expire
  -- included. A list outlives its sessions, since `createSession` sets the later deadline for it.
  pub data Step : Db → Db → Type 0 where
    created :
        (token id : String) (db : Db)
        → Step db (
            store_session redis digest session_ttl
              (session_key redis digest session_ttl token)
              id
              db)
    logged_out :
        (token id : String) (db : Db)
        → Step db (
            drop_session redis digest session_ttl
              (session_key redis digest session_ttl token)
              id
              db)
    revoked_all : (id : String) (db : Db) → Step db (revoked id db)
    elsewhere :
        (db db' : Db)
        → ((d : String)
            → (read db' (key_of d) ≡ read db (key_of d)) ⊎ (read db' (key_of d) ≡ absent))
        → ((i : String)
            → (read db' (sessions_of i) ≡ read db (sessions_of i))
              ⊎ ((read db' (sessions_of i) ≡ absent)
                  × ((d : String) → get (read db' (key_of d)) ≢ some i)))
        → Step db db'

  pub data Reach (db₀ : Db) : Db → Type 0 where
    start : Reach db₀ db₀
    next : (db db' : Db) → Reach db₀ db → Step db db' → Reach db₀ db'

  pub elsewhere-AllListed :
      (db db' : Db)
      → ((d : String) → (read db' (key_of d) ≡ read db (key_of d)) ⊎ (read db' (key_of d) ≡ absent))
      → ((i : String)
          → (read db' (sessions_of i) ≡ read db (sessions_of i))
            ⊎ ((read db' (sessions_of i) ≡ absent)
                × ((d : String) → get (read db' (key_of d)) ≢ some i)))
      → Listed' db
      → Listed' db'
  elsewhere-AllListed db db' keys lists h = record {
    listed = λ d i own. elim (lists i) [
      | inr (gone, none_left) ↦ absurd (none_left d own)
      | inl same ↦ elim (keys d) [
        | inr e ↦ absurd (let impossible : none ≡ some i = ap get (sym e) ∙ own in cc)
        | inl e ↦
            ap (λ l. contains (key_of d) (smembers l)) same ∙ h.listed d i (ap get (sym e) ∙ own)
      ]
    ];
    lists =
        λ i. elim (lists i) [ inl same ↦ rw same (h.lists i) | inr (gone, none_left) ↦ rw gone tt ];
    sessions_only = λ i j. elim (lists i) [
      | inl same ↦ rw same (h.sessions_only i j)
      | inr (gone, none_left) ↦ rw gone refl
    ];
  }

  Step-AllListed : (db db' : Db) → Step db db' → Listed' db → Listed' db'
  unfolding session_key
  Step-AllListed db _ (created token id _) h =
      store_session-AllListed redis digest session_ttl positive (digest token) id db h
  Step-AllListed db _ (logged_out token id _) h =
      drop_session-AllListed redis digest session_ttl positive (digest token) id db h
  Step-AllListed db _ (revoked_all id _) h = revoked-AllListed id db h
  Step-AllListed db db' (elsewhere _ _ keys lists) h = elsewhere-AllListed db db' keys lists h

  pub Reach-AllListed : (db₀ db : Db) → Listed' db₀ → Reach db₀ db → Listed' db
  Reach-AllListed db₀ _ h start = h
  Reach-AllListed db₀ db' h (next db _ r s) = Step-AllListed db db' s (Reach-AllListed db₀ db h r)

  pub IsEmpty-AllListed : (db : Db) → ((j : String) → read db j ≡ absent) → Listed' db
  IsEmpty-AllListed db h = record {
    listed = λ d i own.
        absurd (let impossible : none ≡ some i = ap get (sym (h (key_of d))) ∙ own in cc);
    lists = λ i. rw (h (sessions_of i)) tt;
    sessions_only = λ i j. rw (h (sessions_of i)) refl;
  }
