-- ===== src/Web/MatchPage.antt =====
-- The page of a match that was just recorded.
use june_2026_tictactoe_bots.Match.Rules.{Game, after, forfeits, completes, draws, goes_on}
use june_2026_tictactoe_bots.Prelude.{
  ℕ, suc, List, [], ◌∷◌, sym, subst, leb, true, arith, ◌≡◌, refl, some, none, map, ◌++◌,
}
use june_2026_tictactoe_bots.Text.{Text, codes}
use june_2026_tictactoe_bots.Engine.{
  MatchResult, Player, cross, Board, empty_board, MatchOutcome, Move,
}
use june_2026_tictactoe_bots.Match.{Reason, played, refused}
use june_2026_tictactoe_bots.Store.{Db, Bot, by_id, record_match}
use june_2026_tictactoe_bots.Store.Record.{IsValid}
use june_2026_tictactoe_bots.Store.Listings.{is_of_family}
use june_2026_tictactoe_bots.Store.Listings.Recording.{
  AreNumbered, move_view, recorded_view, match_by_id-record_match, for_match-record_match,
}
use june_2026_tictactoe_bots.Web.{
  SitePage, match_page, page_of, render_match, match_detail, bot_match_detail,
}

-- The first move of a game has the number that the game starts from.
Game-head :
    {number : ℕ} {p : Player} {b : Board} {ms : List (Move Reason)} {o : MatchOutcome}
    → Game number p b ms o
    → (m : Move Reason) × (rest : List (Move Reason)) × (ms ≡ m ∷ rest) × (m.move_number ≡ number)
Game-head (forfeits {number = n} {p = p} {b = b} e) = (refused n p b e, [], refl, refl)
Game-head (completes {number = n} {p = p} {b = b} k free line) =
    (played n p (after b k p), [], refl, refl)
Game-head (draws {number = n} {p = p} {b = b} k free no_line full) =
    (played n p (after b k p), [], refl, refl)
Game-head (goes_on {number = n} {p = p} {b = b} {ms = ms} k free no_line open_b g) =
    (played n p (after b k p), ms, refl, refl)

AreNumbered-cons :
    (m : Move Reason) (ms : List (Move Reason)) (next : Move Reason) (rest : List (Move Reason))
    → ms ≡ next ∷ rest
    → next.move_number ≡ suc m.move_number
    → AreNumbered ms
    → AreNumbered (m ∷ ms)
AreNumbered-cons m ms next rest e follows h =
    let step : leb m.move_number next.move_number ≡ true = rw follows (ground arith) in
    let tail : AreNumbered (next ∷ rest) = subst AreNumbered e h in
    subst (λ l. AreNumbered (m ∷ l)) (sym e) (step, tail)

-- The moves of a game are in the order of their numbers.
Game-AreNumbered :
    {number : ℕ} {p : Player} {b : Board} {ms : List (Move Reason)} {o : MatchOutcome}
    → Game number p b ms o
    → AreNumbered ms
Game-AreNumbered (forfeits e) = tt
Game-AreNumbered (completes k free line) = tt
Game-AreNumbered (draws k free no_line full) = tt
Game-AreNumbered (goes_on {number = n} {p = p} {b = b} {ms = ms} k free no_line open_b g) =
    let (next, rest, e, follows) = Game-head g in
    AreNumbered-cons (played n p (after b k p)) ms next rest e follows (Game-AreNumbered g)

-- The page of a result between two bots.
abbrev pub page_for : Db → Bot → Bot → MatchResult Reason → Text → Text → Text → SitePage
page_for db x o r cid back_url back_label = match_page (record {
  shown = recorded_view db x o r.result cid;
  moves = map (move_view x o) r.moves;
  back_url = back_url;
  back_label = back_label;
})

-- In a database that satisfies the invariant, where both bots are found under their keys: once a game by
-- the rules from the empty board is recorded, the page of the new match shows the two bots, the winner's
-- name and just the moves of the game, in their order, each with its bot's name; and so does the page
-- under the name of either bot's family.
pub match_pages-record_match :
    (db : Db) (x o : Bot) (r : MatchResult Reason) (cid base_name : Text)
    → IsValid db
    → by_id db x.id ≡ some x
    → by_id db o.id ≡ some o
    → Game 1 cross empty_board r.moves r.result
    → is_of_family (some base_name) (recorded_view db x o r.result cid) ≡ true
    → (match_detail (record_match db x.id o.id r cid) db.next_match_id
        ≡ page_for db x o r cid (codes "/matches") (codes "Back to matches"))
      × (bot_match_detail (record_match db x.id o.id r cid) base_name db.next_match_id
          ≡ page_for db x o r cid (codes "/bots/" ++ base_name) (codes "Back to " ++ base_name))
unfolding match_detail bot_match_detail render_match page_of
match_pages-record_match db x o r cid base_name valid stored_x stored_o game mine =
    let moves =
      for_match-record_match db x o r cid valid stored_x stored_o (Game-AreNumbered game) in
    (
      rw (match_by_id-record_match db x o r cid valid stored_x stored_o none refl, moves) refl,
      rw
          (
            match_by_id-record_match db x o r cid valid stored_x stored_o (some base_name) mine,
            moves,
          )
          refl,
    )
