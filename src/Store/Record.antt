-- ===== src/Store/Record.antt =====
-- The invariant of the tables under every write, and the winner that a match is stored with.
use june_2026_tictactoe_bots.Prelude.{
  All-append, All-map, Any, here, there, Any-append_left, Any-append_right, Distinct, ◌⊎◌, ◌++◌, ℕ,
  suc, ◌<◌, ◌≡◌, refl, sym, ◌∙◌, ap, ◌≢◌, inl, inr, Option, none, some, List, [], ◌∷◌, map, arith,
  any, All, if◌then◌else◌, Bool-cases, subst,
}
use june_2026_tictactoe_bots.Text.{Text, text_eq}
use june_2026_tictactoe_bots.Pods.{Attempt, ok}
use june_2026_tictactoe_bots.Engine.{
  Player, cross, nought, other, Board, MatchOutcome, x_wins, o_wins, cat, x_forfeit, o_forfeit,
  Move, MatchResult,
}
use june_2026_tictactoe_bots.Match.{Reason}
use june_2026_tictactoe_bots.Match.Rules.{Game, forfeits, completes, draws, goes_on}
use june_2026_tictactoe_bots.Store.Keys.{Distinct-append, with_pod-keys, with_pod-ids}
use june_2026_tictactoe_bots.Store.{
  Bot, Db, MatchRow, MoveRow, NewBot, create, bot_row, set_pod_ready, winner_id, bot_of, move_row,
  match_row, record_match, is_cat,
}

-- The move's match is stored, and the move is of one of its two bots.
abbrev pub IsOfStored : List MatchRow → MoveRow → Type 0
IsOfStored ms m =
    Any (λ r. (r.id ≡ m.match_id) × ((m.bot_id ≡ r.bot_x_id) ⊎ (m.bot_id ≡ r.bot_o_id))) ms

-- A draw has no winner; X wins by a line or by a forfeit of O, and O by a line or by a forfeit of X.
abbrev pub IsSettled : MatchRow → Type 0
IsSettled m =
    ((m.result ≡ cat) × (m.winner_id ≡ none))
    ⊎ (((m.result ≡ x_wins) ⊎ (m.result ≡ o_forfeit)) × (m.winner_id ≡ some m.bot_x_id))
    ⊎ (((m.result ≡ o_wins) ⊎ (m.result ≡ x_forfeit)) × (m.winner_id ≡ some m.bot_o_id))

-- Keys are distinct and below the next key; every move belongs to a match that is stored; every match
-- has the winner of its result.
pub record IsValid (db : Db) : Type 0 where
  pub bots_distinct : Distinct (map (λ b. b.id) db.bots)
  pub matches_distinct : Distinct (map (λ m. m.id) db.matches)
  pub bot_ids : All (λ b. b.id < db.next_bot_id) db.bots
  pub match_ids : All (λ m. m.id < db.next_match_id) db.matches
  pub move_matches : All (IsOfStored db.matches) db.moves
  pub scored : All IsSettled db.matches

bots_later : (n : ℕ) (bs : List Bot) → All (λ b. b.id < n) bs → All (λ b. b.id < suc n) bs
bots_later n bs = All-map (λ b. b.id < n) (λ b. b.id < suc n) bs (λ b h. omega arith)

-- An insert that succeeds preserves the invariant.
create-IsValid :
    (db db' : Db) (n : NewBot) (b : Bot) → create db n ≡ ok (db', b) → IsValid db → IsValid db'
unfolding create
create-IsValid db db' n b e v =
    elim (Bool-cases (any (λ b. text_eq b.versioned_name n.versioned_name) db.bots)) [
      | inl taken ↦ cc (rw taken at e)
      | inr free ↦ subst IsValid (stored (rw free at e)) (record {
        bots_distinct =
            Distinct-append (λ (b : Bot). b.id) (bot_row db.next_bot_id db.now n) db.bots v.bot_ids
              v.bots_distinct;
        matches_distinct = v.matches_distinct;
        bot_ids =
            All-append (λ b. b.id < suc db.next_bot_id) db.bots
              (bot_row db.next_bot_id db.now n ∷ []) (bots_later db.next_bot_id db.bots v.bot_ids)
              (omega arith);
        match_ids = v.match_ids;
        move_matches = v.move_matches;
        scored = v.scored;
      })
    ]
  where
    stored : {x y : Db × Bot} → ◌≡◌ {A = Attempt (Db × Bot)} (ok x) (ok y) → x.0 ≡ y.0
    stored h = cc

-- Setting a pod ready preserves the invariant.
set_pod_ready-IsValid :
    (db : Db) (k : ℕ) (pod : Text) → IsValid db → IsValid (set_pod_ready db k pod)
unfolding set_pod_ready
set_pod_ready-IsValid db k pod v = record {
  bots_distinct = subst Distinct (sym (with_pod-keys k pod db.bots)) v.bots_distinct;
  matches_distinct = v.matches_distinct;
  bot_ids = with_pod-ids db.next_bot_id k pod db.bots v.bot_ids;
  match_ids = v.match_ids;
  move_matches = v.move_matches;
  scored = v.scored;
}

-- The moves of a match are stored with it.
moves_stored :
    (db : Db) (x o : ℕ) (r : MatchOutcome) (cid : Text) (ms : List (Move Reason))
    → All
        (IsOfStored (db.matches ++ match_row db x o r cid ∷ []))
        (map (move_row db.next_match_id x o) ms)
moves_stored db x o r cid [] = tt
moves_stored db x o r cid (m ∷ ms) =
    (Any-append_right db.matches (here (refl, side m.player)), moves_stored db x o r cid ms)
  where
    side : (p : Player) → (bot_of x o p ≡ x) ⊎ (bot_of x o p ≡ o)
    side cross = inl refl
    side nought = inr refl

match_row-IsSettled :
    (db : Db) (x o : ℕ) (r : MatchOutcome) (cid : Text) → IsSettled (match_row db x o r cid)
unfolding winner_id
match_row-IsSettled db x o x_wins cid = inr (inl (inl refl, refl))
match_row-IsSettled db x o o_wins cid = inr (inr (inl refl, refl))
match_row-IsSettled db x o cat cid = inl (refl, refl)
match_row-IsSettled db x o x_forfeit cid = inr (inr (inr refl, refl))
match_row-IsSettled db x o o_forfeit cid = inr (inl (inr refl, refl))

-- Storing a match with its moves preserves the invariant, and a new match has the winner of its result.
record_match-IsValid :
    (db : Db) (x o : ℕ) (r : MatchResult Reason) (cid : Text)
    → IsValid db
    → IsValid (record_match db x o r cid)
unfolding record_match
record_match-IsValid db x o r cid v =
    let n = db.next_match_id in
    let row = match_row db x o r.result cid in
    record {
      bots_distinct = v.bots_distinct;
      matches_distinct =
          Distinct-append (λ (m : MatchRow). m.id) row db.matches v.match_ids v.matches_distinct;
      bot_ids = v.bot_ids;
      match_ids =
          All-append (λ m. m.id < suc n) db.matches (row ∷ [])
            (All-map (λ m. m.id < n) (λ m. m.id < suc n) db.matches (λ m h. omega arith)
              v.match_ids)
            (omega arith);
      move_matches =
          All-append (IsOfStored (db.matches ++ row ∷ [])) db.moves (map (move_row n x o) r.moves)
            (All-map (IsOfStored db.matches) (IsOfStored (db.matches ++ row ∷ [])) db.moves
              (λ m h. Any-append_left (row ∷ []) h) v.move_matches)
            (moves_stored db x o r.result cid r.moves);
      scored =
          All-append IsSettled db.matches (row ∷ []) v.scored
            (match_row-IsSettled db x o r.result cid, tt);
    }

key_below :
    (n : ℕ) (m : MoveRow) (ms : List MatchRow)
    → All (λ r. r.id < n) ms
    → IsOfStored ms m
    → m.match_id < n
key_below n m [] h i = elim i [ ]
key_below n m (r ∷ ms) h (here (e, side)) = omega (arith, h.0, e)
key_below n m (r ∷ ms) h (there i) = key_below n m ms h.1 i

-- No move has the key of the next match.
pub moves_below : (db : Db) → IsValid db → All (λ m. m.match_id < db.next_match_id) db.moves
moves_below db v =
    All-map (IsOfStored db.matches) (λ m. m.match_id < db.next_match_id) db.moves
      (λ m i. key_below db.next_match_id m db.matches v.match_ids i) v.move_matches

-- The writes of the repositories.
pub data Write : Db → Db → Type 0 where
  creates : {db db' : Db} (n : NewBot) (b : Bot) → create db n ≡ ok (db', b) → Write db db'
  sets_ready : {db : Db} (bot_id : ℕ) (pod : Text) → Write db (set_pod_ready db bot_id pod)
  records :
      {db : Db} (x o : ℕ) (r : MatchResult Reason) (correlation_id : Text)
      → Write db (record_match db x o r correlation_id)

-- Every write preserves the invariant of the tables: no key of a bot or a match is used twice, and all
-- are below the next key; each move is of a bot of a match that is stored; and a match has no winner
-- exactly on a draw, and else the bot that won or whose rival forfeited.
pub Write-IsValid : {db db' : Db} → Write db db' → IsValid db → IsValid db'
Write-IsValid {db = db} {db' = db'} (creates n b e) v = create-IsValid db db' n b e v
Write-IsValid {db = db} (sets_ready bot_id pod) v = set_pod_ready-IsValid db bot_id pod v
Write-IsValid {db = db} (records x o r cid) v = record_match-IsValid db x o r cid v

-- The last move of a record.
abbrev pub last : List (Move Reason) → Option (Move Reason)
last [] = none
last (m ∷ []) = some m
last (m ∷ n ∷ ms) = last (n ∷ ms)

-- The bot that a match is won by, from its last move: the opponent of a player who forfeits, nobody
-- on a draw, and else the player who moved last.
abbrev pub winner_by : ℕ → ℕ → MatchOutcome → Option (Move Reason) → Option ℕ
winner_by x o r none = none
winner_by x o r (some m) = elim m.error [
  | some e ↦ some (bot_of x o (other m.player))
  | none ↦ if is_cat r then none else some (bot_of x o m.player)
]

last-cons : (m : Move Reason) (ms : List (Move Reason)) → ms ≢ [] → last (m ∷ ms) ≡ last ms
last-cons m [] h = absurd (h refl)
last-cons m (n ∷ ms) h = refl

Game-ne-nil :
    {k : ℕ} {p : Player} {b : Board} {ms : List (Move Reason)} {r : MatchOutcome}
    → Game k p b ms r
    → ms ≢ []
Game-ne-nil (forfeits e) h = cc
Game-ne-nil (completes k e l) h = cc
Game-ne-nil (draws k e l f) h = cc
Game-ne-nil (goes_on k e l f g) h = cc

-- The winner that is stored for a game by the rules: the opponent of a player who forfeited, nobody
-- on a draw, and else the player whose move was the last.
pub winner_id-Game :
    (x o : ℕ) {k : ℕ} {p : Player} {b : Board} {ms : List (Move Reason)} {r : MatchOutcome}
    → Game k p b ms r
    → winner_id x o r ≡ winner_by x o r (last ms)
unfolding winner_id
winner_id-Game x o (forfeits {p = cross} e) = refl
winner_id-Game x o (forfeits {p = nought} e) = refl
winner_id-Game x o (completes {p = cross} k e l) = refl
winner_id-Game x o (completes {p = nought} k e l) = refl
winner_id-Game x o (draws k e l f) = refl
winner_id-Game x o {r = r} (goes_on {ms = ms} k e l f g) =
    winner_id-Game x o g ∙ sym (ap (winner_by x o r) (last-cons _ ms (Game-ne-nil g)))
