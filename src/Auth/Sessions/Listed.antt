-- ===== src/Auth/Sessions/Listed.antt =====
-- internal/auth/service.go: every live session is listed for its user.
use Prim.Native.String.{◌++◌}
use anime_companion_ai.Prelude.{
  ℕ, ◌<◌, String, ◌≡◌, refl, ap, ◌∙◌, true, false, some, List, [], ◌∷◌, if◌then◌else◌, if_cases,
  contains, remove, contains-append, contains-remove, str_eq, eq_iff, eq_refl, arith, Bool-cases,
  inl, inr,
}
use anime_companion_ai.Prelude.Text.{differ-ne}
use anime_companion_ai.Redis.{Redis}
use anime_companion_ai.Redis.Entries.{
  Entry, absent, text, list, members, hash, get, smembers, sadd_entry, srem_entry, members_of,
}
use anime_companion_ai.Auth.Sessions.{sessions_of, store_session}

-- The key is used for a set, or not at all.
abbrev pub IsMembers : Entry → Type 0
IsMembers absent = Unit {0}
IsMembers (members l) = Unit {0}
IsMembers _ = ⊥

abbrev pub key_of : String → String
key_of d = "auth:session:" ++ d

pub session_ne_list : (d id : String) → str_eq (key_of d) (sessions_of id) ≡ false
unfolding sessions_of
session_ne_list d id = differ-ne "auth:session:" "auth:user_sessions:" d id refl

pub list_ne_session : (d id : String) → str_eq (sessions_of id) (key_of d) ≡ false
unfolding sessions_of
list_ne_session d id = differ-ne "auth:user_sessions:" "auth:session:" id d refl

smembers-members_of : (l : List String) → smembers (members_of l) ≡ l
smembers-members_of [] = refl
smembers-members_of (x ∷ l) = refl

IsMembers-members_of : (l : List String) → IsMembers (members_of l)
IsMembers-members_of [] = tt
IsMembers-members_of (x ∷ l) = tt

IsMembers-sadd : (v : String) (e : Entry) → IsMembers e → IsMembers (sadd_entry v e)
IsMembers-sadd v absent h = tt
IsMembers-sadd v (members l) h = if_cases IsMembers (contains v l) (λ _. tt) (λ _. tt)
IsMembers-sadd v (text s) h = h
IsMembers-sadd v (list l) h = h
IsMembers-sadd v (hash l) h = h

pub IsMembers-srem : (v : String) (e : Entry) → IsMembers e → IsMembers (srem_entry v e)
IsMembers-srem v absent h = tt
IsMembers-srem v (members l) h = IsMembers-members_of (remove v l)
IsMembers-srem v (text s) h = h
IsMembers-srem v (list l) h = h
IsMembers-srem v (hash l) h = h

-- What is added is there, and what was there stays.
contains-sadd :
    (v : String) (e : Entry) → IsMembers e → contains v (smembers (sadd_entry v e)) ≡ true
contains-sadd v absent h = ground (arith, eq_refl v)
contains-sadd v (members l) h =
    if_cases (λ e. contains v (smembers e) ≡ true) (contains v l) (λ e. e)
      (λ _. ground (arith, contains-append v l (v ∷ []), eq_refl v))
contains-sadd v (text s) h = absurd h
contains-sadd v (list l) h = absurd h
contains-sadd v (hash l) h = absurd h

contains-sadd_old :
    (x v : String) (e : Entry)
    → contains x (smembers e) ≡ true
    → contains x (smembers (sadd_entry v e)) ≡ true
contains-sadd_old x v absent h = absurd (let impossible : false ≡ true = h in cc)
contains-sadd_old x v (members l) h =
    if_cases (λ e. contains x (smembers e) ≡ true) (contains v l) (λ _. h)
      (λ _. ground (arith, contains-append x l (v ∷ [])))
contains-sadd_old x v (text s) h = h
contains-sadd_old x v (list l) h = h
contains-sadd_old x v (hash l) h = h

contains-sadd_other :
    (x v : String) (e : Entry)
    → IsMembers e
    → str_eq v x ≡ false
    → contains x (smembers (sadd_entry v e)) ≡ contains x (smembers e)
contains-sadd_other x v absent m h = ground arith
contains-sadd_other x v (members l) m h =
    if_cases (λ e. contains x (smembers e) ≡ contains x l) (contains v l) (λ _. refl)
      (λ _. ground (arith, contains-append x l (v ∷ [])))
contains-sadd_other x v (text s) m h = absurd m
contains-sadd_other x v (list l) m h = absurd m
contains-sadd_other x v (hash l) m h = absurd m

pub contains-srem :
    (x v : String) (e : Entry)
    → str_eq v x ≡ false
    → contains x (smembers (srem_entry v e)) ≡ contains x (smembers e)
contains-srem x v (members l) h =
    ap (contains x) (smembers-members_of (remove v l)) ∙ contains-remove x v l h
contains-srem x v absent h = refl
contains-srem x v (text s) h = refl
contains-srem x v (list l) h = refl
contains-srem x v (hash l) h = refl

module _ (redis : Redis) (digest : String → String) (session_ttl : ℕ)
    (positive : 0 < session_ttl) where
  open redis use {Db, read}

  -- Every live session is in the list of its user; the lists are sets, of keys of sessions only.
  pub record AllListed (db : Db) : Type 0 where
    pub listed :
        (d id : String)
        → get (read db (key_of d)) ≡ some id
        → contains (key_of d) (smembers (read db (sessions_of id))) ≡ true
    pub lists : (id : String) → IsMembers (read db (sessions_of id))
    pub sessions_only :
        (id i : String) → contains (sessions_of i) (smembers (read db (sessions_of id))) ≡ false

  pub read-store_session :
      (key id : String) (db : Db) (j : String)
      → read (store_session redis digest session_ttl key id db) j ≡ (
          if str_eq (sessions_of id) j
          then sadd_entry key
              (if str_eq key (sessions_of id) then text id else read db (sessions_of id))
          else if str_eq key j
          then text id
          else read db j)
  unfolding store_session
  read-store_session key id db j =
      redis.read-pexpire _ (sessions_of id) session_ttl j positive
      ∙ redis.read-sadd _ (sessions_of id) key j
      ∙ rw
          (
            redis.read-pexpire (redis.set db key id) key session_ttl j positive,
            redis.read-pexpire (redis.set db key id) key session_ttl (sessions_of id) positive,
            redis.read-set db key id j,
            redis.read-set db key id (sessions_of id),
          )
          refl

  pub session-store_session :
      (d id : String) (db : Db) (d' : String)
      → read (store_session redis digest session_ttl (key_of d) id db) (key_of d')
        ≡ (if str_eq (key_of d) (key_of d') then text id else read db (key_of d'))
  session-store_session d id db d' =
      rw (read-store_session (key_of d) id db (key_of d'), list_ne_session d' id) refl

  pub list-store_session :
      (d id : String) (db : Db) (i : String)
      → read (store_session redis digest session_ttl (key_of d) id db) (sessions_of i) ≡ (
          if str_eq (sessions_of id) (sessions_of i)
          then sadd_entry (key_of d) (read db (sessions_of i))
          else read db (sessions_of i))
  list-store_session d id db i =
      rw
        (
          read-store_session (key_of d) id db (sessions_of i),
          session_ne_list d i,
          session_ne_list d id,
        )
        (elim (Bool-cases (str_eq (sessions_of id) (sessions_of i))) [
          | inr e ↦ rw e refl
          | inl e ↦
              let same : sessions_of id ≡ sessions_of i =
                (eq_iff (sessions_of id) (sessions_of i)).0 e in
              rw (e, same) refl
        ])

  pub store_session-AllListed :
      (d id : String) (db : Db)
      → AllListed db
      → AllListed (store_session redis digest session_ttl (key_of d) id db)
  store_session-AllListed d id db h = record {
    listed = λ d' i.
        rw (session-store_session d id db d', list-store_session d id db i)
          (if_cases
            (λ e.
              get e ≡ some i
              → contains (key_of d') (
                  smembers (
                    if str_eq (sessions_of id) (sessions_of i)
                    then sadd_entry (key_of d) (read db (sessions_of i))
                    else read db (sessions_of i)))
                ≡ true)
            (str_eq (key_of d) (key_of d'))
            (λ same own.
              let user : id ≡ i = cc in
              let key : key_of d ≡ key_of d' = (eq_iff (key_of d) (key_of d')).0 same in
              rw (user, eq_refl (sessions_of i), ← key) (contains-sadd (key_of d) _ (h.lists i)))
            (λ other own.
              if_cases (λ e. contains (key_of d') (smembers e) ≡ true)
                (str_eq (sessions_of id) (sessions_of i))
                (λ _. contains-sadd_old (key_of d') (key_of d) _ (h.listed d' i own))
                (λ _. h.listed d' i own)));
    lists = λ i. rw (list-store_session d id db i) (
        if_cases IsMembers (str_eq (sessions_of id) (sessions_of i))
          (λ _. IsMembers-sadd (key_of d) _ (h.lists i)) (λ _. h.lists i));
    sessions_only = λ i j. rw (list-store_session d id db i) (
        if_cases (λ e. contains (sessions_of j) (smembers e) ≡ false)
          (str_eq (sessions_of id) (sessions_of i))
          (λ _.
            contains-sadd_other (sessions_of j) (key_of d) _ (h.lists i) (session_ne_list d j)
            ∙ h.sessions_only i j)
          (λ _. h.sessions_only i j));
  }
