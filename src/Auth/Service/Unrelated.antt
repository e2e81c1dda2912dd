-- ===== src/Auth/Service/Unrelated.antt =====
-- internal/auth/service.go: the calls on codes, which leave the sessions alone.
use Prim.Native.String.{◌++◌}
use anime_companion_ai.Prelude.{
  ℕ, ◌<◌, String, ◌≡◌, refl, ◌∙◌, inl, false, Option, none, some, if_cases, str_eq, leb, Result, ok,
  err,
}
use anime_companion_ai.Prelude.Text.{differ-ne}
use anime_companion_ai.Redis.{Redis}
use anime_companion_ai.Redis.Entries.{get}
use anime_companion_ai.Redis.Link.{Link, answered, unsent, answer_lost, call}
use anime_companion_ai.Auth.Pending.{PendingVerification, CodeError, verify_pending}
use anime_companion_ai.Auth.Sessions.{sessions_of}
use anime_companion_ai.Auth.Sessions.Listed.{key_of}
use anime_companion_ai.Auth.Sessions.Histories.{Listed', elsewhere-AllListed}
use anime_companion_ai.Auth.Service.{Accounts, Passwords, World}
use anime_companion_ai.Auth.Service.Codes.{
  Notation, Text, Config, pending_key, read_pending, write_pending, written_after, check_pending,
}

pending_ne_session :
    (purpose email d : String) → str_eq (pending_key purpose email) (key_of d) ≡ false
unfolding pending_key
pending_ne_session purpose email d =
    differ-ne "auth:pending:" "auth:session:" (purpose ++ (":" ++ email)) d refl

pending_ne_list :
    (purpose email i : String) → str_eq (pending_key purpose email) (sessions_of i) ≡ false
unfolding pending_key sessions_of
pending_ne_list purpose email i =
    differ-ne "auth:pending:" "auth:user_sessions:" (purpose ++ (":" ++ email)) i refl

module _ (redis : Redis) (text : Text) (notation : Notation) (config : Config)
    (passwords : Passwords) (accounts : Accounts) (positive : 0 < config.session_ttl) where
  open redis use {Db, read, set, del}
  open text use {digest}

  abbrev World' : Type 0
  World' = World redis text notation config passwords accounts

  abbrev Listed'' : Db → Type 0
  Listed'' db = Listed' redis digest config.session_ttl positive db

  -- The sessions and their lists are the same.
  pub record Same (db db' : Db) : Type 0 where
    pub sessions : (d : String) → read db' (key_of d) ≡ read db (key_of d)
    pub lists : (i : String) → read db' (sessions_of i) ≡ read db (sessions_of i)

  same : (db : Db) → Same db db
  same db = record { sessions = λ d. refl; lists = λ i. refl }

  pub del-Same : (purpose email : String) (db : Db) → Same db (del db (pending_key purpose email))
  del-Same purpose email db = record {
    sessions = λ d.
        redis.read-del db (pending_key purpose email) (key_of d)
        ∙ rw (pending_ne_session purpose email d) refl;
    lists = λ i.
        redis.read-del db (pending_key purpose email) (sessions_of i)
        ∙ rw (pending_ne_list purpose email i) refl;
  }

  pub set-Same :
      (purpose email value : String) (db : Db) → Same db (set db (pending_key purpose email) value)
  set-Same purpose email value db = record {
    sessions = λ d.
        redis.read-set db (pending_key purpose email) value (key_of d)
        ∙ rw (pending_ne_session purpose email d) refl;
    lists = λ i.
        redis.read-set db (pending_key purpose email) value (sessions_of i)
        ∙ rw (pending_ne_list purpose email i) refl;
  }

  -- A command that keeps the sessions, whatever becomes of its call.
  pub call-Same :
      {A : Type 0} (link : Link) (script : Db → A × Db) (db : Db)
      → Same db (script db).1
      → Same db (call link script db).1
  unfolding call
  call-Same answered script db h = h
  call-Same unsent script db h = same db
  call-Same answer_lost script db h = h

  write_pending-Same :
      (link : Link) (purpose email : String) (held : Option PendingVerification) (db : Db)
      → Same db (write_pending text redis notation config link (pending_key purpose email) held db)
  unfolding write_pending
  write_pending-Same link purpose email none db =
      let command : Db → Unit {0} × Db = λ d. (tt, del d (pending_key purpose email)) in
      call-Same link command db (del-Same purpose email db)
  write_pending-Same link purpose email (some pending) db =
      let command : Db → Unit {0} × Db =
        λ d. (tt, set d (pending_key purpose email) (notation.encode pending)) in
      call-Same link command db (set-Same purpose email (notation.encode pending) db)

  written_after-Same :
      (link : Link) (purpose email : String) (held : Option PendingVerification)
      (checked : Result CodeError PendingVerification × Option PendingVerification) (db : Db)
      → Same db (
          written_after text redis notation config link (pending_key purpose email) held checked db)
  unfolding written_after
  written_after-Same link purpose email none checked db = same db
  written_after-Same link purpose email (some pending) (ok accepted, held) db = same db
  written_after-Same link purpose email (some pending) (err e, held) db =
      if_cases (Same db) (leb 5 pending.attempts) (λ _. same db)
        (λ _. write_pending-Same link purpose email held db)

  Same-trans : (a b c : Db) → Same a b → Same b c → Same a c
  Same-trans a b c h k = record {
    sessions = λ d. k.sessions d ∙ h.sessions d;
    lists = λ i. k.lists i ∙ h.lists i;
  }

  pub check_pending-Same :
      (link : ℕ → Link) (purpose email code : String) (db : Db)
      → Same db (check_pending text redis notation config link purpose email code db).1
  unfolding check_pending read_pending
  check_pending-Same link purpose email code db =
      let script : Db → Option String × Db = λ d. (get (read d (pending_key purpose email)), d) in
      let held = (read_pending text redis notation config (link 0) purpose email db).0 in
      Same-trans db (call (link 0) script db).1 _ (call-Same (link 0) script db (same db)) (
        written_after-Same (link 1) purpose email held (verify_pending digest text.upper code held)
          (call (link 0) script db).1)

  pub Same-AllListed : (db db' : Db) → Same db db' → Listed'' db → Listed'' db'
  Same-AllListed db db' h =
      elsewhere-AllListed redis digest config.session_ttl positive db db' (λ d. inl (h.sessions d))
        (λ i. inl (h.lists i))
