-- ===== src/Orchestration/Context/Select/Chain.antt =====
-- Chains of batch ranges: what the two loops of `selectHistoryBatches` keep.
use mathlib.Core.List.{reverse_aux}
use anime_companion_ai.Prelude.{
  ℕ, zero, suc, ◌+◌, ◌≤◌, String, ◌≡◌, refl, sym, ap, ◌≢◌, ◌⊎◌, true, List, [], ◌∷◌, ◌++◌, arith,
  eq_iff, length, length-append, All, take, drop, take-append-drop, length-drop-le, append-nil,
  append_assoc,
}
use anime_companion_ai.Prelude.Text.{is_empty}
use anime_companion_ai.Conversation.{Turn}
use anime_companion_ai.Orchestration.Context.Select.{
  BatchRange, run_length, tokens_of, batch_ranges,
}

-- The batch id of the last message, or the empty text.
abbrev pub last_batch_id : List Turn → String
last_batch_id [] = ""
last_batch_id (m ∷ []) = m.batch_id
last_batch_id (m ∷ n ∷ ms) = last_batch_id (n ∷ ms)

-- `left ++ right` is cut between two batches: messages with no batch id are batches of their own.
abbrev pub IsCut : List Turn → List Turn → Type 0
IsCut left [] = Unit {0}
IsCut left (m ∷ ms) = (last_batch_id left ≡ "") ⊎ (m.batch_id ≢ last_batch_id left)

-- The messages of one batch.
abbrev pub InBatch : String → List Turn → Type 0
InBatch batch_id = All (λ m. m.batch_id ≡ batch_id)

-- One range: a whole batch `run`, which stands after `before` and ends at a cut.
pub record IsRange (before run after : List Turn) (r : BatchRange) : Type 0 where
  pub head : Turn
  pub tail : List Turn
  pub starts : run ≡ head ∷ tail
  pub same : InBatch head.batch_id tail
  pub start : r.start ≡ length before
  pub tokens : r.tokens ≡ tokens_of run
  pub cut : IsCut run after

-- The ranges of `rest`, which follows `before`, upwards.
pub data Asc : List Turn → List Turn → List BatchRange → Type 0 where
  done : {before : List Turn} → Asc before [] []
  step :
      {before rest after : List Turn} {r : BatchRange} {rs : List BatchRange} (run : List Turn)
      → rest ≡ run ++ after
      → IsRange before run after r
      → Asc (before ++ run) after rs
      → Asc before rest (r ∷ rs)

-- The ranges of `older`, which `selected` follows, downwards.
pub data Desc : List Turn → List Turn → List BatchRange → Type 0 where
  start : {older selected : List Turn} → older ≡ [] → Desc older selected []
  down :
      {older selected : List Turn} {r : BatchRange} {rs : List BatchRange} (before run : List Turn)
      → older ≡ before ++ run
      → IsRange before run selected r
      → Desc before (run ++ selected) rs
      → Desc older selected (r ∷ rs)

pub Desc-reverse :
    {before rest : List Turn} {rs : List BatchRange} (acc : List BatchRange)
    → Asc before rest rs
    → Desc before rest acc
    → Desc (before ++ rest) [] (reverse_aux rs acc)
Desc-reverse {before} acc done d = rw append-nil d
Desc-reverse {before} acc (step {after = after} {r = r} run e range a) d =
    rw (e, ← append_assoc) (Desc-reverse (r ∷ acc) a (down before run refl range (rw e at d)))

is_empty→eq : (s : String) → is_empty s ≡ true → s ≡ ""
unfolding is_empty
is_empty→eq String.[] h = refl
is_empty→eq (String.◌∷◌ c s) h = cc

-- What follows a run does not belong to its batch.
abbrev Stops : String → List Turn → Type 0
Stops batch_id [] = Unit {0}
Stops batch_id (m ∷ ms) = (batch_id ≡ "") ⊎ (m.batch_id ≢ batch_id)

module _ (batch_id : String) where
  length-run : (ms : List Turn) → length (take (run_length batch_id ms) ms) ≡ run_length batch_id ms
  unfolding run_length
  length-run [] = refl
  length-run (m ∷ ms) = ground (arith, length-run ms)

  run-InBatch : (ms : List Turn) → InBatch batch_id (take (run_length batch_id ms) ms)
  unfolding run_length
  run-InBatch [] = tt
  run-InBatch (m ∷ ms) = ground (arith, run-InBatch ms, eq_iff m.batch_id batch_id)

  run-Stops : (ms : List Turn) → Stops batch_id (drop (run_length batch_id ms) ms)
  unfolding run_length
  run-Stops [] = tt
  run-Stops (m ∷ ms) =
      ground (arith, run-Stops ms, eq_iff m.batch_id batch_id, is_empty→eq batch_id)

last-InBatch :
    (batch_id : String) (m : Turn) (ms : List Turn)
    → m.batch_id ≡ batch_id
    → InBatch batch_id ms
    → last_batch_id (m ∷ ms) ≡ batch_id
last-InBatch batch_id m [] e h = e
last-InBatch batch_id m (n ∷ ms) e h = last-InBatch batch_id n ms h.0 h.1

Stops-IsCut :
    (m : Turn) (ms after : List Turn)
    → InBatch m.batch_id ms
    → Stops m.batch_id after
    → IsCut (m ∷ ms) after
Stops-IsCut m ms [] h k = tt
Stops-IsCut m ms (n ∷ after) h k = rw (last-InBatch m.batch_id m ms refl h) k

-- The first loop splits the history into whole batches, and fuel of its length is enough.
pub batch_ranges-Asc :
    (fuel : ℕ) (before rest : List Turn)
    → length rest ≤ fuel
    → Asc before rest (batch_ranges fuel (length before) rest)
unfolding batch_ranges
batch_ranges-Asc zero before [] h = done
batch_ranges-Asc zero before (m ∷ rest) h = absurd (omega arith)
batch_ranges-Asc (suc fuel) before [] h = done
batch_ranges-Asc (suc fuel) before (m ∷ rest) h =
    step (m ∷ take n rest) (ap (◌∷◌ m) (sym (take-append-drop n rest)))
      (record {
        head = m;
        tail = take n rest;
        starts = refl;
        same = run-InBatch m.batch_id rest;
        start = refl;
        tokens = refl;
        cut = Stops-IsCut m _ _ (run-InBatch m.batch_id rest) (run-Stops m.batch_id rest);
      })
      (rw next at (
        batch_ranges-Asc fuel (before ++ m ∷ take n rest) (drop n rest)
          (omega (arith, length-drop-le n rest))))
  where
    n : ℕ
    n = run_length m.batch_id rest

    next : length (before ++ m ∷ take n rest) ≡ length before + 1 + n
    next = omega (arith, length-append before (m ∷ take n rest), length-run m.batch_id rest)
