-- ===== src/Auth/Sessions/Tests.antt =====
-- Sessions of one user on a server in memory.
use Prim.Native.String.{◌++◌}
use anime_companion_ai.Prelude.{◌<◌, String, ◌≡◌, ◌≢◌, refl, some, arith}
use anime_companion_ai.Prelude.Text.{is_empty}
use anime_companion_ai.Redis.Link.{answered, call}
use anime_companion_ai.Redis.Memory.{Db, memory, fresh}
use anime_companion_ai.Auth.Sessions.{
  session_key, session_user, store_session, revoke_all_sessions, revoke_listed, sessions_of,
}
use anime_companion_ai.Auth.Sessions.Histories.{created, Reach, start, next}
use anime_companion_ai.Auth.Sessions.Revocation.{
  revoke_all_sessions-ends, late, late_session-survives,
}

-- A hash that can be read.
abbrev marked : String → String
marked text = "#" ++ text

week : 0 < 604800000
week = omega arith

abbrev before : Db
before = fresh 1000

-- Mina has logged in.
logged_in : Db
unfolding store_session
logged_in =
    store_session memory marked 604800000 (session_key memory marked 604800000 "token-1") "mina"
      before

reached : Reach memory marked 604800000 week before logged_in
unfolding logged_in
reached = next before _ start (created "token-1" "mina" before)

revoke_all_sessions-ends_example :
    (session_user memory marked 604800000 answered "token-1"
      (revoke_all_sessions memory marked 604800000 answered answered "mina" logged_in).1).0
    ≢ some "mina"
unfolding revoke_all_sessions call revoke_listed
revoke_all_sessions-ends_example =
    revoke_all_sessions-ends memory marked 604800000 week before logged_in (λ j. refl) reached
      answered answered "mina" refl answered "token-1"

late_session-survives_example :
    (session_user memory marked 604800000 answered "token-2"
      (revoke_all_sessions memory marked 604800000 answered answered "mina"
        (late memory marked 604800000 week "token-2" "mina" before)).1).0
    ≡ some "mina"
unfolding session_key sessions_of is_empty
late_session-survives_example =
    late_session-survives memory marked 604800000 week "token-2" "mina" before refl refl
