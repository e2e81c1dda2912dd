-- ===== src/Redisstore/Tests.antt =====
-- Two calls a minute for a person, on a server in memory.
use anime_companion_ai.Prelude.{◌<◌, ◌≤◌, ◌≡◌, refl, false, List, [], ◌∷◌, arith}
use anime_companion_ai.Prelude.Text.{is_empty}
use anime_companion_ai.Redis.Link.{Link, answered, answer_lost}
use anime_companion_ai.Redis.Memory.{memory, fresh}
use anime_companion_ai.Redisstore.Window.{grants, answers, grants-le}

minute : 0 < 60000
minute = omega arith

named : is_empty "mina" ≡ false
unfolding is_empty
named = refl

abbrev three : List Link
three = answered ∷ answer_lost ∷ answered ∷ []

grants-le_example :
    (grants memory "limit:" 2 60000 "mina" minute named three (fresh 1000) ≤ 2)
    × (2 ≤ 2
        → grants memory "limit:" 2 60000 "mina" minute named
            (answers memory "limit:" 2 60000 "mina" minute named 2)
            (fresh 1000)
          ≡ 2)
grants-le_example = grants-le memory "limit:" 2 60000 "mina" minute named three 2 (fresh 1000) refl
