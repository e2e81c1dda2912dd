-- ===== src/Redis/Entries.antt =====
-- What a key of Redis holds, and the documented effect of the commands on it.
use anime_companion_ai.Prelude.{
  String, Bool, true, false, Option, none, some, List, [], ◌∷◌, ◌++◌, if◌then◌else◌, contains,
  remove,
}
use anime_companion_ai.Prelude.Int.{ℤ, pos, ◌+ℤ◌}
use anime_companion_ai.Prelude.Assoc.{Assoc, lookup, insert, without}

pub data Entry : Type 0 where
  absent : Entry
  text : String → Entry
  list : List String → Entry
  members : List String → Entry
  hash : Assoc String → Entry

abbrev pub hash_of : Assoc String → Entry
hash_of [] = absent
hash_of (x ∷ l) = hash (x ∷ l)

abbrev pub exists : Entry → Bool
exists absent = false
exists _ = true

abbrev pub get : Entry → Option String
get (text s) = some s
get _ = none

abbrev pub fields : Entry → Assoc String
fields (hash l) = l
fields _ = []

abbrev pub hget : Entry → String → Option String
hget e f = lookup f (fields e)

abbrev pub lrange_all : Entry → List String
lrange_all (list l) = l
lrange_all _ = []

abbrev pub smembers : Entry → List String
smembers (members l) = l
smembers _ = []

abbrev pub hset_entry : String → String → Entry → Entry
hset_entry f v absent = hash (insert f v [])
hset_entry f v (hash l) = hash (insert f v l)
hset_entry f v e = e

abbrev pub hdel_entry : String → Entry → Entry
hdel_entry f (hash l) = hash_of (without f l)
hdel_entry f e = e

abbrev pub rpush_entry : String → Entry → Entry
rpush_entry v absent = list (v ∷ [])
rpush_entry v (list l) = list (l ++ v ∷ [])
rpush_entry v e = e

abbrev pub sadd_entry : String → Entry → Entry
sadd_entry v absent = members (v ∷ [])
sadd_entry v (members l) = if contains v l then members l else members (l ++ v ∷ [])
sadd_entry v e = e

abbrev pub members_of : List String → Entry
members_of [] = absent
members_of (x ∷ l) = members (x ∷ l)

abbrev pub srem_entry : String → Entry → Entry
srem_entry v (members l) = members_of (remove v l)
srem_entry v e = e

-- `redis.call('HGET', …) or '0'`
abbrev pub or_zero : Option String → String
or_zero none = "0"
or_zero (some s) = s

module _ (itoa : ℤ → String) (tonumber : String → ℤ) where
  -- A number that is not there counts as 0.
  abbrev pub number_or_zero : Option String → ℤ
  number_or_zero none = pos 0
  number_or_zero (some s) = tonumber s

  abbrev pub incr_entry : Entry → Entry
  incr_entry absent = text (itoa (pos 1))
  incr_entry (text s) = text (itoa (tonumber s +ℤ pos 1))
  incr_entry e = e

  abbrev pub hincrby_entry : String → ℤ → Entry → Entry
  hincrby_entry f n e = hset_entry f (itoa (number_or_zero (hget e f) +ℤ n)) e
