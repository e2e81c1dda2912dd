-- ===== src/Redis/Hashes.antt =====
-- Keys that hold a hash.
use anime_companion_ai.Prelude.{String, ◌≡◌, refl, some, [], ◌∷◌, eq_refl}
use anime_companion_ai.Prelude.Assoc.{Assoc, insert, without, lookup-insert}
use anime_companion_ai.Redis.Entries.{
  Entry, absent, text, list, members, hash, fields, hash_of, hset_entry, hdel_entry, hget,
}

-- The key is used for a hash, or not at all.
abbrev pub IsHash : Entry → Type 0
IsHash absent = Unit {0}
IsHash (hash l) = Unit {0}
IsHash _ = ⊥

pub IsHash-hset : (f v : String) (e : Entry) → IsHash e → IsHash (hset_entry f v e)
IsHash-hset f v absent h = tt
IsHash-hset f v (hash l) h = tt
IsHash-hset f v (text s) h = h
IsHash-hset f v (list l) h = h
IsHash-hset f v (members l) h = h

pub fields-hset :
    (f v : String) (e : Entry) → IsHash e → fields (hset_entry f v e) ≡ insert f v (fields e)
fields-hset f v absent h = refl
fields-hset f v (hash l) h = refl
fields-hset f v (text s) h = absurd h
fields-hset f v (list l) h = absurd h
fields-hset f v (members l) h = absurd h

IsHash-hash_of : (l : Assoc String) → IsHash (hash_of l)
IsHash-hash_of [] = tt
IsHash-hash_of (x ∷ l) = tt

fields-hash_of : (l : Assoc String) → fields (hash_of l) ≡ l
fields-hash_of [] = refl
fields-hash_of (x ∷ l) = refl

pub IsHash-hdel : (f : String) (e : Entry) → IsHash e → IsHash (hdel_entry f e)
IsHash-hdel f absent h = tt
IsHash-hdel f (hash l) h = IsHash-hash_of (without f l)
IsHash-hdel f (text s) h = h
IsHash-hdel f (list l) h = h
IsHash-hdel f (members l) h = h

pub fields-hdel :
    (f : String) (e : Entry) → IsHash e → fields (hdel_entry f e) ≡ without f (fields e)
unfolding without
fields-hdel f absent h = refl
fields-hdel f (hash l) h = fields-hash_of _
fields-hdel f (text s) h = absurd h
fields-hdel f (list l) h = absurd h
fields-hdel f (members l) h = absurd h

-- What HSET stores, HGET finds.
pub hget-hset : (f v : String) (e : Entry) → IsHash e → hget (hset_entry f v e) f ≡ some v
hget-hset f v e h = rw (fields-hset f v e h, lookup-insert f f v (fields e), eq_refl f) refl
