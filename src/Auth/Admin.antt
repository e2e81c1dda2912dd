-- ===== src/Auth/Admin.antt =====
-- internal/auth/admin.go: `EnsureAdmin`. The times at which a row was made and changed are left out.
pub mod Ensured
pub mod Tests
use anime_companion_ai.Prelude.{
  ℕ, String, ◌≡◌, Bool, true, false, Option, none, some, str_eq, if◌then◌else◌, Result, ok, err,
}
use anime_companion_ai.Auth.Password.{Bytes, Crypto, hash_password}
use anime_companion_ai.Auth.Service.{User}
use anime_companion_ai.Auth.Service.Codes.{Text, normalize_email}

-- The errors, by the step that they come from.
pub data AdminError : Type 0 where
  no_database bad_email bad_password no_id not_upserted not_read : AdminError

-- The table of users: the insert with its clause on a conflict of the address, and the first row of an
-- address; `none` is an error too.
pub record AdminTable : Type 1 where
  pub State : Type 0
  pub upsert : User → State → Bool × State
  pub by_email : String → State → Option User

-- What the clause on a conflict makes of a row.
abbrev pub merged : Option User → User → User
merged none seed = seed
merged (some old) seed = record old {
  password_hash = seed.password_hash;
  is_admin = seed.is_admin;
  verified_at = seed.verified_at;
}

-- What the database documents: the row of the address, old or new, is merged, and no other changes.
pub record AdminTableLaws (table : AdminTable) : Type 0 where
  pub by_email-upsert :
      (seed : User) (email : String) (s : table.State)
      → (table.upsert seed s).0 ≡ true
      → table.by_email email (table.upsert seed s).1 ≡ (
          if str_eq seed.email email
          then some (merged (table.by_email email s) seed)
          else table.by_email email s)

module _ (table : AdminTable) (text : Text) (crypto : Crypto) where
  open table use {State, upsert, by_email}

  -- The transaction, which an error takes back.
  unfoldable pub upsert_and_read : User → State → Result AdminError User × State
  upsert_and_read seed s =
      let (done, s') = upsert seed s in
      let found : Result AdminError User × State = elim (by_email seed.email s') [
        | some admin ↦ (ok admin, s')
        | none ↦ (err not_read, s)
      ] in
      if done then found else (err not_upserted, s)

  unfoldable pub with_id :
      String → String → ℕ → Option String → State → Result AdminError User × State
  unfolding upsert_and_read
  with_id email password_hash now none s = (err no_id, s)
  with_id email password_hash now (some id) s =
      upsert_and_read
        (record {
          id = id;
          email = email;
          password_hash = password_hash;
          is_admin = true;
          verified_at = now;
        })
        s

  unfoldable pub with_hash :
      String → ℕ → Option String → Option String → State → Result AdminError User × State
  unfolding with_id
  with_hash email now id none s = (err bad_password, s)
  with_hash email now id (some password_hash) s = with_id email password_hash now id s

  unfoldable pub with_email :
      Bytes → String → ℕ → Option String → Option String → State → Result AdminError User × State
  unfolding with_hash
  with_email salt password now id none s = (err bad_email, s)
  with_email salt password now id (some email) s =
      with_hash email now id (hash_password crypto salt password) s

  -- `EnsureAdmin`; `salt` and `id` are drawn, the second of which may fail.
  unfoldable pub ensure_admin :
      Bool → Bytes → Option String → ℕ → String → String → State → Result AdminError User × State
  unfolding with_email
  ensure_admin has_db salt id now email password s =
      let ensured = with_email salt password now id (normalize_email text email) s in
      if has_db then ensured else (err no_database, s)
