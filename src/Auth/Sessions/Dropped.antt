-- ===== src/Auth/Sessions/Dropped.antt =====
-- internal/auth/service.go: what `Logout` and `RevokeAllSessions` leave.
use mathlib.Core.List.{◌++◌ as append}
use anime_companion_ai.Prelude.{
  ℕ, ◌<◌, String, ◌≡◌, ◌≢◌, refl, ap, ◌∙◌, true, false, ◌||◌, none, some, List, [], ◌∷◌,
  if◌then◌else◌, if_cases, contains, contains-append, str_eq, eq_iff, arith, Bool-cases, inl, inr,
}
use anime_companion_ai.Prelude.Text.{is_empty}
use anime_companion_ai.Redis.{Redis}
use anime_companion_ai.Redis.Entries.{Entry, absent, get, smembers}
use anime_companion_ai.Auth.Sessions.{sessions_of, drop_session, del_all, revoke}
use anime_companion_ai.Auth.Sessions.Listed.{
  IsMembers, IsMembers-srem, contains-srem, key_of, session_ne_list, list_ne_session, AllListed,
}

pub get_absent : (id : String) → get absent ≢ some id
get_absent id e = let impossible : none ≡ some id = e in cc

module _ (redis : Redis) (digest : String → String) (session_ttl : ℕ)
    (positive : 0 < session_ttl) where
  open redis use {Db, read, del, srem}

  del-session :
      (d : String) (db : Db) (d' : String)
      → read (del db (key_of d)) (key_of d')
        ≡ (if str_eq (key_of d) (key_of d') then absent else read db (key_of d'))
  del-session d db d' = redis.read-del db (key_of d) (key_of d')

  del-list :
      (d : String) (db : Db) (i : String)
      → read (del db (key_of d)) (sessions_of i) ≡ read db (sessions_of i)
  del-list d db i = redis.read-del db (key_of d) (sessions_of i) ∙ rw (session_ne_list d i) refl

  pub drop_session-session :
      (d id : String) (db : Db) (d' : String)
      → read (drop_session redis digest session_ttl (key_of d) id db) (key_of d')
        ≡ (if str_eq (key_of d) (key_of d') then absent else read db (key_of d'))
  unfolding drop_session
  drop_session-session d id db d' =
      if_cases
        (λ e.
          read e (key_of d')
          ≡ (if str_eq (key_of d) (key_of d') then absent else read db (key_of d')))
        (is_empty id) (λ _. del-session d db d')
        (λ _.
          redis.read-srem (del db (key_of d)) (sessions_of id) (key_of d) (key_of d')
          ∙ rw (list_ne_session d' id) (del-session d db d'))

  -- A list loses nothing but the dropped key.
  record Keeps (d : String) (e e' : Entry) : Type 0 where
    members : IsMembers e → IsMembers e'
    same :
        (x : String)
        → str_eq (key_of d) x ≡ false
        → contains x (smembers e') ≡ contains x (smembers e)

  drop_session-Keeps :
      (d id : String) (db : Db) (i : String)
      → Keeps d
          (read db (sessions_of i))
          (read (drop_session redis digest session_ttl (key_of d) id db) (sessions_of i))
  unfolding drop_session
  drop_session-Keeps d id db i =
      if_cases (λ e. Keeps d (read db (sessions_of i)) (read e (sessions_of i))) (is_empty id)
        (λ _. rw (del-list d db i) (record { members = λ m. m; same = λ x h. refl }))
        (λ _.
          rw
            (
              redis.read-srem (del db (key_of d)) (sessions_of id) (key_of d) (sessions_of i),
              del-list d db i,
              del-list d db id,
            )
            (elim (Bool-cases (str_eq (sessions_of id) (sessions_of i))) [
              | inr e ↦ rw e (record { members = λ m. m; same = λ x h. refl })
              | inl e ↦
                  let same : sessions_of id ≡ sessions_of i =
                    (eq_iff (sessions_of id) (sessions_of i)).0 e in
                  rw (e, same)
                    (record {
                      members = IsMembers-srem (key_of d) (read db (sessions_of i));
                      same = λ x h. contains-srem x (key_of d) (read db (sessions_of i)) h;
                    })
            ]))

  pub drop_session-AllListed :
      (d id : String) (db : Db)
      → AllListed redis digest session_ttl positive db
      → AllListed redis digest session_ttl positive
          (drop_session redis digest session_ttl (key_of d) id db)
  drop_session-AllListed d id db h = record {
    listed = λ d' i. rw (drop_session-session d id db d') (
        if_cases
          (λ e.
            get e ≡ some i
            → contains (key_of d') (
                smembers
                  (read (drop_session redis digest session_ttl (key_of d) id db) (sessions_of i)))
              ≡ true)
          (str_eq (key_of d) (key_of d')) (λ _ gone. absurd (get_absent i gone))
          (λ other own. (drop_session-Keeps d id db i).same (key_of d') other ∙ h.listed d' i own));
    lists = λ i. (drop_session-Keeps d id db i).members (h.lists i);
    sessions_only = λ i j.
        (drop_session-Keeps d id db i).same (sessions_of j) (session_ne_list d j)
        ∙ h.sessions_only i j;
  }

  read-del_all :
      (keys : List String) (db : Db) (j : String)
      → read (del_all redis digest session_ttl keys db) j
        ≡ (if contains j keys then absent else read db j)
  unfolding del_all
  read-del_all [] db j = refl
  read-del_all (key ∷ keys) db j =
      rw (read-del_all keys (del db key) j, redis.read-del db key j)
        (elim (Bool-cases (contains j keys)) [
          | inl e ↦ elim (Bool-cases (str_eq key j)) [
            | inl f ↦ rw (e, f) refl
            | inr f ↦ rw (e, f) refl
          ]
          | inr e ↦ elim (Bool-cases (str_eq key j)) [
            | inl f ↦ rw (e, f) refl
            | inr f ↦ rw (e, f) refl
          ]
        ])

  -- The revocation deletes the list and what it holds.
  pub read-revoke :
      (id : String) (keys : List String) (db : Db) (j : String)
      → read (revoke redis digest session_ttl id keys db) j
        ≡ (if contains j keys || str_eq (sessions_of id) j then absent else read db j)
  unfolding revoke
  read-revoke id [] db j = redis.read-del db (sessions_of id) j
  read-revoke id (key ∷ keys) db j =
      read-del_all (append (key ∷ keys) (sessions_of id ∷ [])) db j
      ∙ ap (λ b. if b then absent else read db j)
          (contains-append j (key ∷ keys) (sessions_of id ∷ []) ∙ ground arith)
