-- ===== src/Store/Listings/Recording.antt =====
-- The listings of a database in which a match was just recorded.
use june_2026_tictactoe_bots.Prelude.{
  ℕ, ◌<◌, ◌≡◌, refl, sym, ap, ◌∙◌, Bool, true, false, ◌&&◌, Option, none, some, List, [], ◌∷◌, ◌++◌,
  map, append_assoc, keep, first, All, All-append, All-map, sort_by, insert_by, IsSorted, leb, ◌==◌,
  ==_refl, arith,
}
use june_2026_tictactoe_bots.Text.{Text}
use june_2026_tictactoe_bots.Engine.{
  Player, cross, nought, Move, MatchOutcome, x_wins, o_wins, x_forfeit, o_forfeit, cat, MatchResult,
}
use june_2026_tictactoe_bots.Match.{Reason}
use june_2026_tictactoe_bots.Store.{
  Db, Bot, MatchRow, MoveRow, by_id, record_match, match_row, move_row, winner_id, bot_of,
}
use june_2026_tictactoe_bots.Store.Record.{IsValid, moves_below}
use june_2026_tictactoe_bots.Store.Listings.{
  MatchView, name_of, winner_row, view, join_bots, join_match, match_select, is_of_family,
  match_by_id, MoveView, with_movers, by_number, for_match,
}

module _ {ℓ} {A : Type ℓ} where
  first-append :
      (p : A → Bool) (xs ys : List A) → All (λ x. p x ≡ false) xs → first p (xs ++ ys) ≡ first p ys
  first-append p [] ys h = refl
  first-append p (x ∷ xs) ys h = rw (h.0) (first-append p xs ys h.1)

  keep-append :
      (p : A → Bool) (xs ys : List A) → All (λ x. p x ≡ false) xs → keep p (xs ++ ys) ≡ keep p ys
  keep-append p [] ys h = refl
  keep-append p (x ∷ xs) ys h = rw (h.0) (keep-append p xs ys h.1)

  -- A list in order is its own sorting.
  pub sort_by-sorted :
      (before : A → A → Bool) (xs : List A) → IsSorted before xs → sort_by before xs ≡ xs
  sort_by-sorted before [] h = refl
  sort_by-sorted before (x ∷ []) h = refl
  sort_by-sorted before (x ∷ y ∷ xs) h =
      ap (insert_by before x) (sort_by-sorted before (y ∷ xs) h.1) ∙ rw (h.0) refl

match_select-append :
    (db : Db) (ms ns : List MatchRow)
    → match_select db (ms ++ ns) ≡ match_select db ms ++ match_select db ns
unfolding match_select
match_select-append db [] ns = refl
match_select-append db (m ∷ ms) ns =
    ap (λ l. join_match db m ++ l) (match_select-append db ms ns)
    ∙ sym (append_assoc (join_match db m) (match_select db ms) (match_select db ns))

-- The joined rows keep the ids of the table below a bound.
join_bots-below :
    (n : ℕ) (m : MatchRow) (x o : Option Bot) (w : Option Text)
    → m.id < n
    → All (λ v. v.id < n) (join_bots m x o w)
join_bots-below n m (some x) (some o) w h = (h, tt)
join_bots-below n m none o w h = tt
join_bots-below n m (some x) none w h = tt

match_select-below :
    (db : Db) (n : ℕ) (ms : List MatchRow)
    → All (λ m. m.id < n) ms
    → All (λ v. v.id < n) (match_select db ms)
unfolding match_select
match_select-below db n [] h = tt
match_select-below db n (m ∷ ms) h =
    All-append (λ v. v.id < n) (join_match db m) (match_select db ms)
      (join_bots-below n m (by_id db m.bot_x_id) (by_id db m.bot_o_id)
        (name_of (winner_row db m.winner_id)) h.0)
      (match_select-below db n ms h.1)

-- The name of the bot that a result lets win.
abbrev pub winner_name : Bot → Bot → MatchOutcome → Option Text
winner_name x o x_wins = some x.versioned_name
winner_name x o o_forfeit = some x.versioned_name
winner_name x o o_wins = some o.versioned_name
winner_name x o x_forfeit = some o.versioned_name
winner_name x o cat = none

abbrev pub mover : Bot → Bot → Player → Bot
mover x o cross = x
mover x o nought = o

-- A move as the page shows it.
abbrev pub move_view : Bot → Bot → Move Reason → MoveView
move_view x o m = record {
  move_number = m.move_number;
  board_state = m.board;
  error = m.error;
  bot_name = (mover x o m.player).versioned_name;
}

module _ (db : Db) (x o : Bot) (stored_x : by_id db x.id ≡ some x)
    (stored_o : by_id db o.id ≡ some o) where
  winner_row-winner_id :
      (r : MatchOutcome) → name_of (winner_row db (winner_id x.id o.id r)) ≡ winner_name x o r
  unfolding winner_id
  winner_row-winner_id x_wins = ap name_of stored_x
  winner_row-winner_id o_forfeit = ap name_of stored_x
  winner_row-winner_id o_wins = ap name_of stored_o
  winner_row-winner_id x_forfeit = ap name_of stored_o
  winner_row-winner_id cat = refl

  -- The one row of a match between the two bots.
  joined :
      (m : MatchRow)
      → m.bot_x_id ≡ x.id
      → m.bot_o_id ≡ o.id
      → m.winner_id ≡ winner_id x.id o.id m.result
      → match_select db (m ∷ []) ≡ view m x o (winner_name x o m.result) ∷ []
  unfolding match_select
  joined m e f g =
      let by_x : by_id db m.bot_x_id ≡ some x = ap (by_id db) e ∙ stored_x in
      let by_o : by_id db m.bot_o_id ≡ some o = ap (by_id db) f ∙ stored_o in
      let won : name_of (winner_row db m.winner_id) ≡ winner_name x o m.result =
        ap (λ w. name_of (winner_row db w)) g ∙ winner_row-winner_id m.result in
      rw (by_x, by_o, won) refl

  found : (p : Player) → by_id db (bot_of x.id o.id p) ≡ some (mover x o p)
  found cross = stored_x
  found nought = stored_o

  movers_joined :
      (n : ℕ) (ms : List (Move Reason))
      → with_movers db (map (move_row n x.id o.id) ms) ≡ map (move_view x o) ms
  unfolding with_movers
  movers_joined n [] = refl
  movers_joined n (m ∷ ms) =
      rw (found m.player) (ap (λ l. move_view x o m ∷ l) (movers_joined n ms))

own_moves :
    (n x o : ℕ) (ms : List (Move Reason))
    → keep (λ m. m.match_id == n) (map (move_row n x o) ms) ≡ map (move_row n x o) ms
own_moves n x o [] = refl
own_moves n x o (m ∷ ms) = rw (==_refl n) (ap (λ l. move_row n x o m ∷ l) (own_moves n x o ms))

-- Moves in the order of their numbers.
abbrev pub AreNumbered : List (Move Reason) → Type 0
AreNumbered ms = IsSorted (λ m n. leb m.move_number n.move_number) ms

views_numbered :
    (x o : Bot) (ms : List (Move Reason))
    → AreNumbered ms
    → IsSorted by_number (map (move_view x o) ms)
views_numbered x o [] h = tt
views_numbered x o (m ∷ []) h = tt
views_numbered x o (m ∷ n ∷ ms) h = (h.0, views_numbered x o (n ∷ ms) h.1)

-- The row that `_match_select` gives of a match between the two bots.
abbrev pub recorded_view : Db → Bot → Bot → MatchOutcome → Text → MatchView
recorded_view db x o r cid = view (match_row db x.id o.id r cid) x o (winner_name x o r)

other_ids :
    (n : ℕ) (family : Option Text) (vs : List MatchView)
    → All (λ v. v.id < n) vs
    → All (λ v. ((v.id == n) && is_of_family family v) ≡ false) vs
other_ids n family vs =
    All-map (λ v. v.id < n) (λ v. ((v.id == n) && is_of_family family v) ≡ false) vs
      (λ v h. ground (arith, h))

module _ (db : Db) (x o : Bot) (r : MatchResult Reason) (cid : Text) (valid : IsValid db)
    (stored_x : by_id db x.id ≡ some x) (stored_o : by_id db o.id ≡ some o) where
  abbrev recorded : Db
  recorded = record_match db x.id o.id r cid

  pub match_by_id-record_match :
      (family : Option Text)
      → is_of_family family (recorded_view db x o r.result cid) ≡ true
      → match_by_id recorded db.next_match_id family ≡ some (recorded_view db x o r.result cid)
  unfolding match_by_id record_match by_id
  match_by_id-record_match family mine =
      let last =
        joined recorded x o stored_x stored_o (match_row db x.id o.id r.result cid) refl refl
          refl in
      let is_it : MatchView → Bool = λ v. (v.id == db.next_match_id) && is_of_family family v in
      ap (first is_it)
        (match_select-append recorded db.matches (match_row db x.id o.id r.result cid ∷ []))
      ∙ first-append is_it (match_select recorded db.matches)
          (match_select recorded (match_row db x.id o.id r.result cid ∷ []))
          (other_ids db.next_match_id family (match_select recorded db.matches)
            (match_select-below recorded db.next_match_id db.matches valid.match_ids))
      ∙ ap (first is_it) last
      ∙ rw (==_refl db.next_match_id, mine) refl

  pub for_match-record_match :
      AreNumbered r.moves → for_match recorded db.next_match_id ≡ map (move_view x o) r.moves
  unfolding for_match record_match by_id
  for_match-record_match numbered =
      let is_own : MoveRow → Bool = λ m. m.match_id == db.next_match_id in
      let own : keep is_own (db.moves ++ map (move_row db.next_match_id x.id o.id) r.moves)
          ≡ map (move_row db.next_match_id x.id o.id) r.moves =
        keep-append is_own db.moves (map (move_row db.next_match_id x.id o.id) r.moves) (
          All-map (λ m. m.match_id < db.next_match_id)
            (λ m. (m.match_id == db.next_match_id) ≡ false) db.moves (λ m h. ground (arith, h))
            (moves_below db valid))
        ∙ own_moves db.next_match_id x.id o.id r.moves in
      ap (λ l. sort_by by_number (with_movers recorded l)) own
      ∙ ap (sort_by by_number)
          (movers_joined recorded x o stored_x stored_o db.next_match_id r.moves)
      ∙ sort_by-sorted by_number (map (move_view x o) r.moves) (views_numbered x o r.moves numbered)
