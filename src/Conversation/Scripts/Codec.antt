-- ===== src/Conversation/Scripts/Codec.antt =====
-- A notation for batches that can be read back: the fields one after another, each character marked.
use Prim.Native.Char.{Char, code}
use anime_companion_ai.Prelude.{
  ℕ, zero, suc, String, ◌≡◌, refl, ap, ◌∙◌, Option, none, some, List, [], ◌∷◌, ◌==◌, if◌then◌else◌,
  length,
}
use anime_companion_ai.Redis.Memory.{strokes, count_strokes, count_strokes-strokes}
use anime_companion_ai.Conversation.{Turn, Batch}
use anime_companion_ai.Conversation.Scripts.{Json}

put : String → String → String
put String.[] rest = String.◌∷◌ "." (String.◌∷◌ "." rest)
put (String.◌∷◌ c s) rest = String.◌∷◌ "x" (String.◌∷◌ c (put s rest))

pub write : List String → String
unfolding put
write [] = ""
write (s ∷ words) = put s (write words)

push : Char → List String → List String
push c [] = []
push c (s ∷ words) = String.◌∷◌ c s ∷ words

pub parse : String → List String
unfolding push
parse String.[] = []
parse (String.◌∷◌ t String.[]) = []
parse (String.◌∷◌ t (String.◌∷◌ c s)) =
    let rest = parse s in if code t == b'.' then "" ∷ rest else push c rest

parse-put : (s rest : String) → parse (put s rest) ≡ s ∷ parse rest
unfolding parse put push
parse-put String.[] rest = refl
parse-put (String.◌∷◌ c s) rest = ap (push c) (parse-put s rest)

pub parse-write : (words : List String) → parse (write words) ≡ words
unfolding write parse
parse-write [] = refl
parse-write (s ∷ words) = parse-put s (write words) ∙ ap (λ ws. s ∷ ws) (parse-write words)

pub turn_words : Turn → List String → List String
turn_words m rest =
    m.turn_id
    ∷ m.role
    ∷ m.content
    ∷ strokes m.created_at
    ∷ m.conversation_id
    ∷ m.speaker_kind
    ∷ m.speaker_id
    ∷ m.batch_id
    ∷ strokes m.sequence
    ∷ m.display_name
    ∷ m.avatar_url
    ∷ rest

pub read_turn : List String → Option (Turn × List String)
read_turn (a ∷ b ∷ c ∷ d ∷ e ∷ f ∷ g ∷ h ∷ i ∷ j ∷ k ∷ rest) = some (
  record {
    turn_id = a;
    role = b;
    content = c;
    created_at = count_strokes d;
    conversation_id = e;
    speaker_kind = f;
    speaker_id = g;
    batch_id = h;
    sequence = count_strokes i;
    display_name = j;
    avatar_url = k;
  },
  rest,
)
read_turn _ = none

pub read_turn-turn_words :
    (m : Turn) (rest : List String) → read_turn (turn_words m rest) ≡ some (m, rest)
unfolding read_turn turn_words
read_turn-turn_words m rest =
    rw (count_strokes-strokes m.created_at, count_strokes-strokes m.sequence) refl

module _ {A : Type 0} (words : A → List String → List String)
    (read_one : List String → Option (A × List String)) where
  abbrev list_words : List A → List String → List String
  list_words [] rest = rest
  list_words (x ∷ xs) rest = words x (list_words xs rest)

  abbrev counted_words : List A → List String → List String
  counted_words xs rest = strokes (length xs) ∷ list_words xs rest

  abbrev read_list : ℕ → List String → Option (List A × List String)
  read_list zero ws = some ([], ws)
  read_list (suc n) ws = elim (read_one ws) [
    | none ↦ none
    | some (x, rest) ↦ elim (read_list n rest) [
      | none ↦ none
      | some (xs, rest') ↦ some (x ∷ xs, rest')
    ]
  ]

  abbrev read_counted : List String → Option (List A × List String)
  read_counted [] = none
  read_counted (n ∷ ws) = read_list (count_strokes n) ws

  module _
      (read-words : (x : A) (rest : List String) → read_one (words x rest) ≡ some (x, rest)) where
    read_list-list_words :
        (xs : List A) (rest : List String)
        → read_list (length xs) (list_words xs rest) ≡ some (xs, rest)
    read_list-list_words [] rest = refl
    read_list-list_words (x ∷ xs) rest =
        rw (read-words x (list_words xs rest), read_list-list_words xs rest) refl

    read_counted-counted_words :
        (xs : List A) (rest : List String) → read_counted (counted_words xs rest) ≡ some (xs, rest)
    read_counted-counted_words xs rest =
        rw (count_strokes-strokes (length xs), read_list-list_words xs rest) refl

abbrev read_text : List String → Option (String × List String)
read_text [] = none
read_text (s ∷ rest) = some (s, rest)

abbrev cons_text : String → List String → List String
cons_text s rest = s ∷ rest

pub batch_words : Batch → List String
unfolding turn_words
batch_words b =
    b.batch_id
    ∷ b.client_request_id
    ∷ b.conversation_id
    ∷ b.status
    ∷ b.interruption_code
    ∷ strokes b.created_at
    ∷ strokes b.updated_at
    ∷ turn_words b.user_message (
        counted_words cons_text read_text b.planned_speaker_ids
          (counted_words turn_words read_turn b.character_messages []))

abbrev with_turns : Batch → List String → Option (List Turn × List String) → Option Batch
with_turns b planned none = none
with_turns b planned (some (turns, rest)) =
    some (record b { planned_speaker_ids = planned; character_messages = turns })

abbrev with_lists : Batch → Option (List String × List String) → Option Batch
with_lists b none = none
with_lists b (some (planned, rest)) = with_turns b planned (read_counted turn_words read_turn rest)

abbrev with_user : (Turn → Batch) → Option (Turn × List String) → Option Batch
with_user b none = none
with_user b (some (user, rest)) = with_lists (b user) (read_counted cons_text read_text rest)

abbrev with_times : Batch → ℕ → ℕ → Turn → Batch
with_times b created updated user = record {
  batch_id = b.batch_id;
  client_request_id = b.client_request_id;
  conversation_id = b.conversation_id;
  planned_speaker_ids = [];
  user_message = user;
  character_messages = [];
  status = b.status;
  interruption_code = b.interruption_code;
  created_at = created;
  updated_at = updated;
}

pub read_batch : List String → Option Batch
unfolding read_turn
read_batch (a ∷ b ∷ c ∷ d ∷ e ∷ f ∷ g ∷ rest) =
    with_user
      (λ user. record {
        batch_id = a;
        client_request_id = b;
        conversation_id = c;
        planned_speaker_ids = [];
        user_message = user;
        character_messages = [];
        status = d;
        interruption_code = e;
        created_at = count_strokes f;
        updated_at = count_strokes g;
      })
      (read_turn rest)
read_batch _ = none

pub read_batch-batch_words : (b : Batch) → read_batch (batch_words b) ≡ some b
unfolding read_batch batch_words
read_batch-batch_words b =
    let messages = counted_words turn_words read_turn b.character_messages [] in
    let lists = counted_words cons_text read_text b.planned_speaker_ids messages in
    ap
      (with_user (
        with_times b (count_strokes (strokes b.created_at)) (count_strokes (strokes b.updated_at))))
      (read_turn-turn_words b.user_message lists)
    ∙ ap
        (λ r.
          with_lists
            (with_times b (count_strokes (strokes b.created_at))
              (count_strokes (strokes b.updated_at)) b.user_message)
            r)
        (read_counted-counted_words cons_text read_text (λ s rest. refl) b.planned_speaker_ids
          messages)
    ∙ ap
        (with_turns
          (with_times b (count_strokes (strokes b.created_at))
            (count_strokes (strokes b.updated_at)) b.user_message)
          b.planned_speaker_ids)
        (read_counted-counted_words turn_words read_turn read_turn-turn_words b.character_messages
          [])
    ∙ rw (count_strokes-strokes b.created_at, count_strokes-strokes b.updated_at) refl

abbrev first_turn : Option (Turn × List String) → Option Turn
first_turn none = none
first_turn (some (m, rest)) = some m

abbrev pub notation : Json
notation = record {
  encode_turn = λ m. write (turn_words m []);
  encode_batch = λ b. write (batch_words b);
  decode_turn = λ s. first_turn (read_turn (parse s));
  decode_batch = λ s. read_batch (parse s);
  decode_turn-encode_turn = λ m.
      ap (λ ws. first_turn (read_turn ws)) (parse-write (turn_words m []))
      ∙ ap first_turn (read_turn-turn_words m []);
  decode_batch-encode_batch =
      λ b. ap read_batch (parse-write (batch_words b)) ∙ read_batch-batch_words b;
}
