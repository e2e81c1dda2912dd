-- ===== src/Auth/Admin/Ensured.antt =====
-- internal/auth/admin.go: what `EnsureAdmin` leaves in the table.
use anime_companion_ai.Prelude.{
  ℕ, String, ◌≡◌, refl, sym, ◌∙◌, Bool, true, Option, none, some, str_eq, eq_refl, eq_iff,
  if◌then◌else◌, if_cases, Result, ok, err,
}
use anime_companion_ai.Auth.Password.{Bytes, Crypto, hash_password, verify_password}
use anime_companion_ai.Auth.Password.RoundTrip.{CryptoLaws, verify_password-hash_password}
use anime_companion_ai.Auth.Service.{User}
use anime_companion_ai.Auth.Service.Codes.{Text, normalize_email}
use anime_companion_ai.Auth.Admin.{
  AdminError, AdminTable, AdminTableLaws, merged, upsert_and_read, with_id, with_hash, with_email,
  ensure_admin,
}

module _ (table : AdminTable) (laws : AdminTableLaws table) (text : Text) (crypto : Crypto)
    (honest : CryptoLaws crypto) where
  open table use {State, upsert, by_email}

  -- The row of the address is the administrator's, whose password is accepted, and the rows of the other
  -- addresses are as they were.
  pub record HasAdmin (email password : String) (s s' : State) (admin : User) : Type 0 where
    pub rows :
        (other : String)
        → by_email other s' ≡ (if str_eq email other then some admin else by_email other s)
    pub is_admin : admin.is_admin ≡ true
    pub accepted : verify_password crypto admin.password_hash password ≡ true

  pub data Ensures (email password : String) (s : State)
      : Result AdminError User × State → Type 0 where
    refused : (e : AdminError) → Ensures email password s (err e, s)
    ensured :
        (normal : String) (admin : User) (s' : State)
        → normalize_email text email ≡ some normal
        → HasAdmin normal password s s' admin
        → Ensures email password s (ok admin, s')

  merged_admin :
      (old : Option User) (seed : User)
      → ((merged old seed).is_admin ≡ seed.is_admin)
        × ((merged old seed).password_hash ≡ seed.password_hash)
  merged_admin none seed = (refl, refl)
  merged_admin (some old) seed = (refl, refl)

  upsert_and_read-Ensures :
      (email password : String) (seed : User) (s : State)
      → normalize_email text email ≡ some seed.email
      → seed.is_admin ≡ true
      → verify_password crypto seed.password_hash password ≡ true
      → Ensures email password s (upsert_and_read table text crypto seed s)
  unfolding upsert_and_read
  upsert_and_read-Ensures email password seed s normal admin good =
      if_cases (Ensures email password s) (upsert seed s).0
        (λ done. by_row done (by_email seed.email (upsert seed s).1) refl) (λ _. refused _)
    where
      by_row :
          (upsert seed s).0 ≡ true
          → (row : Option User) → by_email seed.email (upsert seed s).1 ≡ row
          → Ensures email password s (elim row [
            | some found ↦ (ok found, (upsert seed s).1)
            | none ↦ (err AdminError.not_read, s)
          ])
      by_row done none e = refused _
      by_row done (some found) e =
          let here : by_email seed.email (upsert seed s).1
              ≡ some (merged (by_email seed.email s) seed) =
            laws.by_email-upsert seed seed.email s done ∙ rw (eq_refl seed.email) refl in
          let same : found ≡ merged (by_email seed.email s) seed = cc in
          let both = merged_admin (by_email seed.email s) seed in
          ensured seed.email found (upsert seed s).1 normal (record {
            rows = λ other.
                laws.by_email-upsert seed other s done
                ∙ if_cases
                    (λ r.
                      (if str_eq seed.email other
                        then some (merged (by_email other s) seed)
                        else by_email other s)
                      ≡ r)
                    (str_eq seed.email other)
                    (λ same_email.
                      let one : seed.email ≡ other = (eq_iff seed.email other).0 same_email in
                      rw (same_email, sym one, same) refl)
                    (λ differs. rw differs refl);
            is_admin = rw same (both.0 ∙ admin);
            accepted = rw (same, both.1) good;
          })

  -- `EnsureAdmin` fails and leaves the table as it was; or it returns the administrator of the address, in
  -- the form without blanks and capitals, whose password is the one that was given, and of the table only
  -- the row of this address is changed, old or new.
  pub ensure_admin-Ensures :
      (has_db : Bool) (salt : Bytes) (id : Option String) (now : ℕ) (email password : String)
      (s : State)
      → Ensures email password s
          (ensure_admin table text crypto has_db salt id now email password s)
  unfolding ensure_admin
  ensure_admin-Ensures has_db salt id now email password s =
      if_cases (Ensures email password s) has_db
        (λ _. by_email_form (normalize_email text email) refl) (λ _. refused _)
    where
      by_id :
          (normal : String) (hash : String) (id : Option String)
          → normalize_email text email ≡ some normal
          → hash_password crypto salt password ≡ some hash
          → Ensures email password s (with_id table text crypto normal hash now id s)
      by_id normal hash none e h = refused _
      by_id normal hash (some drawn) e h =
          upsert_and_read-Ensures email password _ s e refl
            ((verify_password-hash_password crypto honest salt password hash password h).1 refl)

      by_hash :
          (normal : String) (hash : Option String)
          → normalize_email text email ≡ some normal
          → hash_password crypto salt password ≡ hash
          → Ensures email password s (with_hash table text crypto normal now id hash s)
      by_hash normal none e h = refused _
      by_hash normal (some hash) e h = by_id normal hash id e h

      by_email_form :
          (form : Option String)
          → normalize_email text email ≡ form
          → Ensures email password s (with_email table text crypto salt password now id form s)
      by_email_form none e = refused _
      by_email_form (some normal) e = by_hash normal (hash_password crypto salt password) e refl
