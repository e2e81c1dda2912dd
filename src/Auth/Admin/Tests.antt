-- ===== src/Auth/Admin/Tests.antt =====
-- An administrator of a table that is a function of the address.
use anime_companion_ai.Prelude.{
  String, ◌≡◌, refl, true, none, some, [], ◌∷◌, str_eq, if◌then◌else◌, ok,
}
use anime_companion_ai.Prelude.{Option}
use anime_companion_ai.Auth.Service.{User}
use anime_companion_ai.Auth.Service.Codes.{normalize_email}
use anime_companion_ai.Auth.Password.{hash_password}
use anime_companion_ai.Auth.Service.Samples.{strings}
use anime_companion_ai.Auth.Password.Samples.{crypto, laws, stored}
use anime_companion_ai.Auth.Admin.{AdminTable, AdminTableLaws, merged, ensure_admin}
use anime_companion_ai.Auth.Admin.Ensured.{Ensures, ensure_admin-Ensures}

abbrev table : AdminTable
table = record {
  State = String → Option User;
  upsert = λ seed s.
      (true, λ email. if str_eq seed.email email then some (merged (s email) seed) else s email);
  by_email = λ email s. s email;
}

table_laws : AdminTableLaws table
table_laws = record { by_email-upsert = λ seed email s done. refl }

abbrev nobody : String → Option User
nobody email = none

appointed :
    (ensure_admin table strings crypto true
      (1 ∷ [])
      (some "u1")
      0
      "sos@example.com"
      "haruhi12"
      nobody).0
    ≡ ok (record {
      id = "u1";
      email = "sos@example.com";
      password_hash = stored;
      is_admin = true;
      verified_at = 0;
    })
unfolding ensure_admin normalize_email hash_password
appointed = refl

ensure_admin-Ensures_example :
    Ensures table table_laws strings crypto laws "sos@example.com" "haruhi12" nobody (
      ensure_admin table strings crypto true
        (1 ∷ [])
        (some "u1")
        0
        "sos@example.com"
        "haruhi12"
        nobody)
ensure_admin-Ensures_example =
    ensure_admin-Ensures table table_laws strings crypto laws true (1 ∷ []) (some "u1") 0
      "sos@example.com" "haruhi12" nobody
