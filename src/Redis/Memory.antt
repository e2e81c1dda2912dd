-- ===== src/Redis/Memory.antt =====
-- A server in memory, which shows that the documented effects can be met together.
use Prim.Native.Char.{code}
use anime_companion_ai.Prelude.{
  ℕ, zero, suc, String, ◌≡◌, refl, ap, ◌==◌, str_eq, ltb, if◌then◌else◌, Bool-cases, inl, inr,
}
use anime_companion_ai.Prelude.Int.{ℤ, pos, negsuc}
use anime_companion_ai.Redis.{Redis}
use anime_companion_ai.Redis.Entries.{
  Entry, absent, text, hset_entry, hdel_entry, hincrby_entry, incr_entry, rpush_entry, sadd_entry,
  srem_entry,
}

pub record Db : Type 0 where
  pub entries : String → Entry
  pub now : ℕ

abbrev pub update : Db → String → Entry → Db
update db k e = record db { entries = λ j. if str_eq k j then e else db.entries j }

-- The numeral of a number is not decimal here: a stroke for each unit.
abbrev pub strokes : ℕ → String
strokes zero = ""
strokes (suc n) = String.◌∷◌ "1" (strokes n)

abbrev itoa : ℤ → String
itoa (pos n) = strokes n
itoa (negsuc n) = String.◌∷◌ "-" (strokes n)

abbrev pub count_strokes : String → ℕ
count_strokes String.[] = 0
count_strokes (String.◌∷◌ c s) =
    let rest = count_strokes s in if code c == b'1' then suc rest else rest

abbrev tonumber : String → ℤ
tonumber String.[] = pos 0
tonumber (String.◌∷◌ c s) =
    if code c == b'-' then negsuc (count_strokes s) else pos (count_strokes (String.◌∷◌ c s))

pub count_strokes-strokes : (n : ℕ) → count_strokes (strokes n) ≡ n
count_strokes-strokes zero = refl
count_strokes-strokes (suc n) = ap suc (count_strokes-strokes n)

pub tonumber-itoa : (n : ℤ) → tonumber (itoa n) ≡ n
tonumber-itoa (pos zero) = refl
tonumber-itoa (pos (suc n)) = ap (λ k. pos (suc k)) (count_strokes-strokes n)
tonumber-itoa (negsuc n) = ap negsuc (count_strokes-strokes n)

pub expireat-read :
    (db : Db) (k : String) (t : ℕ) (j : String)
    → (if ltb db.now t then db else update db k absent).entries j
      ≡ (if ltb db.now t then db.entries j else if str_eq k j then absent else db.entries j)
expireat-read db k t j = elim (Bool-cases (ltb db.now t)) [ inl e ↦ rw e | inr e ↦ rw e ]

abbrev pub memory : Redis
memory = record {
  Db = Db;
  clock = λ db. db.now;
  read = λ db. db.entries;
  itoa = itoa;
  tonumber = tonumber;
  tonumber-itoa = tonumber-itoa;
  tonumber_zero = refl;
  set = λ db k v. update db k (text v);
  del = λ db k. update db k absent;
  incr = λ db k. update db k (incr_entry itoa tonumber (db.entries k));
  rpush = λ db k v. update db k (rpush_entry v (db.entries k));
  sadd = λ db k v. update db k (sadd_entry v (db.entries k));
  srem = λ db k v. update db k (srem_entry v (db.entries k));
  hset = λ db k f v. update db k (hset_entry f v (db.entries k));
  hdel = λ db k f. update db k (hdel_entry f (db.entries k));
  hincrby = λ db k f n. update db k (hincrby_entry itoa tonumber f n (db.entries k));
  expireat = λ db k t. if ltb db.now t then db else update db k absent;
  pexpire = λ db k ms. db;
  read-set = λ db k v j. refl;
  read-del = λ db k j. refl;
  read-incr = λ db k j. refl;
  read-rpush = λ db k v j. refl;
  read-sadd = λ db k v j. refl;
  read-srem = λ db k v j. refl;
  read-hset = λ db k f v j. refl;
  read-hdel = λ db k f j. refl;
  read-hincrby = λ db k f n j. refl;
  read-expireat = expireat-read;
  read-pexpire = λ db k ms j h. refl;
  clock-hset = λ db k f v. refl;
  clock-hdel = λ db k f. refl;
  clock-hincrby = λ db k f n. refl;
}

-- Nothing stored, at the instant `now`.
abbrev pub fresh : ℕ → Db
fresh now = record { entries = λ k. absent; now = now }
