-- ===== src/Quota/Histories.antt =====
-- Histories of the manager's calls (internal/quota/quota.go), over a network that loses calls and
-- answers, and with keys that expire.
use anime_companion_ai.Prelude.{
  ℕ, ◌-◌, String, ◌≡◌, refl, ◌⊎◌, inl, inr, true, Option, none, some, str_eq, if_cases, ◌||◌, ◌==◌,
}
use anime_companion_ai.Prelude.Text.{append-ne, is_empty}
use anime_companion_ai.Prelude.Int.{pos}
use anime_companion_ai.Redis.{Redis}
use anime_companion_ai.Redis.Entries.{absent}
use anime_companion_ai.Redis.Link.{Link, answered, unsent, answer_lost, call}
use anime_companion_ai.Quota.Types.{Subject, Outcome, Reservation, Window}
use anime_companion_ai.Quota.Ledger.{is_request}
use anime_companion_ai.Quota.Script.{ReserveReply, SettleReply, reserve_script}
use anime_companion_ai.Quota.Invariant.{
  HasLedger, reserve_script-HasLedger, settle_script-HasLedger, IsLedgerEntry-absent,
}
use anime_companion_ai.Quota.Manager.{
  Manager, Reserved, QuotaAnswer, is_blank, request_hash, window_of, read_reserve, reserve,
  snapshot, settle, after_settle, is_known, outcome_text,
}

module _ (redis : Redis) (digest : String → String) (format_date : ℕ → String) (manager : Manager)
    (limit : ℕ) (limit_eq : manager.limit ≡ pos limit) where
  open redis use {Db, read}

  pub request_hash-is_request :
      (id : String) → is_request (request_hash redis digest format_date manager id) ≡ true
  unfolding is_request request_hash
  request_hash-is_request id = rw (append-ne "request:" (digest id) "committed" refl) (
      rw (append-ne "request:" (digest id) "reserved" refl)
        (rw (append-ne "request:" (digest id) "revision" refl)))

  -- Every ledger of the server is right.
  abbrev pub AllLedgers : Db → Type 0
  AllLedgers db = (key : String) → HasLedger redis limit db key

  call-AllLedgers :
      {A : Type 0} (link : Link) (script : Db → A × Db) (db : Db)
      → AllLedgers db
      → AllLedgers (script db).1
      → AllLedgers (call link script db).1
  unfolding call
  call-AllLedgers answered script db g h = h
  call-AllLedgers unsent script db g h = g
  call-AllLedgers answer_lost script db g h = h

  pub reserve-AllLedgers :
      (link : Link) (subject : Subject) (id : String) (now : ℕ) (db : Db)
      → AllLedgers db
      → AllLedgers (reserve redis digest format_date manager link subject id now db).1
  unfolding reserve
  reserve-AllLedgers link subject id now db g =
      let kept = λ (r : Reserved × Db). AllLedgers r.1 in
      if_cases kept subject.is_admin (λ _. g)
        λ _.
          if_cases kept (is_blank subject.user_id || is_blank id) (λ _. g)
            λ _. call-AllLedgers link _ db g (λ j. rw limit_eq (
              reserve_script-HasLedger redis limit _ _ _ _ _ db (request_hash-is_request id) j (g _)
                (g j)))

  snapshot-AllLedgers :
      (link : Link) (subject : Subject) (now : ℕ) (db : Db)
      → AllLedgers db
      → AllLedgers (snapshot redis digest format_date manager link subject now db).1
  unfolding snapshot
  snapshot-AllLedgers link subject now db g =
      let kept = λ (r : QuotaAnswer × Db). AllLedgers r.1 in
      if_cases kept subject.is_admin (λ _. g)
        λ _. if_cases kept (is_blank subject.user_id) (λ _. g) λ _. call-AllLedgers link _ db g g

  after_settle-AllLedgers :
      (link : Link) (r : Reservation) (now : ℕ) (reply : Option SettleReply) (db : Db)
      → AllLedgers db
      → AllLedgers (after_settle redis digest format_date manager link r now reply db).1
  unfolding after_settle
  after_settle-AllLedgers link r now none db g = g
  after_settle-AllLedgers link r now (some reply) db g =
      if_cases (λ (a : QuotaAnswer × Db). AllLedgers a.1)
        (str_eq (window_of redis digest format_date manager r.subject.user_id now).key r.key)
        (λ _. g) (λ _. snapshot-AllLedgers link r.subject now db g)

  pub settle-AllLedgers :
      (link link' : Link) (r : Reservation) (outcome : Outcome) (now : ℕ) (db : Db)
      → is_request r.request_hash ≡ true
      → AllLedgers db
      → AllLedgers (settle redis digest format_date manager link link' r outcome now db).1
  unfolding settle
  settle-AllLedgers link link' r outcome now db named g =
      let kept = λ (a : QuotaAnswer × Db). AllLedgers a.1 in
      if_cases kept (r.unlimited || r.subject.is_admin) (λ _. g)
        λ _.
          if_cases kept (is_empty r.key || is_empty r.request_hash || is_empty r.subject.user_id)
            (λ _. g)
            λ _.
              if_cases kept (is_known outcome)
                (λ _. after_settle-AllLedgers link' r now _ _ (
                  call-AllLedgers link _ db g (λ j.
                    settle_script-HasLedger redis limit r.key r.request_hash db named
                      (outcome_text outcome) j r.expires_at (g r.key) (g j))))
                (λ _. g)

  -- The reservation names a request.
  pub record IsNamed (r : Reserved) : Type 0 where
    pub named : is_request r.reservation.request_hash ≡ true

  read_reserve-IsNamed :
      (subject : Subject) (hash : String) (w w' : Window) (reply : Option ReserveReply)
      → is_request hash ≡ true
      → IsNamed (read_reserve redis digest format_date manager subject hash w w' reply)
  unfolding read_reserve is_request
  read_reserve-IsNamed subject hash w w' none h = record { named = refl }
  read_reserve-IsNamed subject hash w w' (some reply) h =
      if_cases IsNamed (reply.accepted == 0) (λ _. record { named = refl })
        (λ _. record { named = h })

  -- Whatever becomes of the call, the reservation that `Reserve` returns names a request.
  pub reserve-IsNamed :
      (link : Link) (subject : Subject) (id : String) (now : ℕ) (db : Db)
      → IsNamed (reserve redis digest format_date manager link subject id now db).0
  unfolding reserve is_request
  reserve-IsNamed link subject id now db =
      let named = λ (r : Reserved × Db). IsNamed r.0 in
      if_cases named subject.is_admin (λ _. record { named = refl })
        λ _.
          if_cases named (is_blank subject.user_id || is_blank id) (λ _. record { named = refl })
            λ _.
              read_reserve-IsNamed subject hash w w' (call link script db).0
                (request_hash-is_request id)
    where
      hash : String
      hash = request_hash redis digest format_date manager id

      w : Window
      w = window_of redis digest format_date manager subject.user_id now

      w' : Window
      w' = window_of redis digest format_date manager subject.user_id (now - 86400)

      script : Db → ReserveReply × Db
      script = reserve_script redis w.key w'.key hash manager.limit w.expires_at w'.expires_at

  -- What can happen to the server: calls of the manager, and keys that expire.
  pub data Step (db : Db) : Db → Type 0 where
    reserves :
        (link : Link) (subject : Subject) (id : String) (now : ℕ)
        → Step db (reserve redis digest format_date manager link subject id now db).1
    settles :
        (link link' : Link) (r : Reservation) (outcome : Outcome) (now : ℕ)
        → is_request r.request_hash ≡ true
        → Step db (settle redis digest format_date manager link link' r outcome now db).1
    snapshots :
        (link : Link) (subject : Subject) (now : ℕ)
        → Step db (snapshot redis digest format_date manager link subject now db).1
    expires :
        (db' : Db)
        → ((key : String) → (read db' key ≡ read db key) ⊎ (read db' key ≡ absent))
        → Step db db'

  pub data Reach (db : Db) : Db → Type 0 where
    here : Reach db db
    next : {db' db'' : Db} → Reach db db' → Step db' db'' → Reach db db''

  Step-AllLedgers : {db db' : Db} → Step db db' → AllLedgers db → AllLedgers db'
  Step-AllLedgers (reserves link subject id now) g = reserve-AllLedgers link subject id now _ g
  Step-AllLedgers (settles link link' r outcome now named) g =
      settle-AllLedgers link link' r outcome now _ named g
  Step-AllLedgers (snapshots link subject now) g = snapshot-AllLedgers link subject now _ g
  Step-AllLedgers (expires db' kept) g = λ key. elim (kept key) [
    | inl same ↦ rw same (g key)
    | inr gone ↦ rw gone (IsLedgerEntry-absent redis limit)
  ]

  -- From a server whose ledgers are right, whatever calls of the manager are made, whichever of them or of their answers the network loses,
  -- and whenever keys expire: at every key the counters `reserved` and `committed` are the numbers of
  -- the requests in these states, and together these are at most the daily limit.
  pub Reach-AllLedgers : {db db' : Db} → AllLedgers db → Reach db db' → AllLedgers db'
  Reach-AllLedgers g here = g
  Reach-AllLedgers g (next r s) = Step-AllLedgers s (Reach-AllLedgers g r)
