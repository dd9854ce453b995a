-- ===== src/Match/Legal.antt =====
-- Every match that the loop runs is a game by the rules, and nine turns are always enough.
use june_2026_tictactoe_bots.Prelude.{
  ℕ, zero, suc, ◌≡◌, ◌≢◌, refl, sym, ◌∙◌, ap, subst, List, [], ◌∷◌, ◌++◌, arith, some, none, inl,
  inr, ◌⊎◌, Option-cases,
}
use mathlib.Core.List.{append_assoc}
use june_2026_tictactoe_bots.Text.{Text}
use june_2026_tictactoe_bots.Pods.{Attempt, ok, PodStatus, get_pod_ip, Attempt-cases}
use june_2026_tictactoe_bots.Engine.{
  Player, cross, nought, other, dot, Board, empty_board, cell, Coords, MatchOutcome, x_wins, o_wins,
  x_forfeit, o_forfeit, cat, Move, MatchResult, board_to_str, check_winner,
}
use june_2026_tictactoe_bots.Engine.Winning.{
  HasLine, Describes, check_winner-Describes, no_line, IsOpen-board, set_cell-no_line,
  check_winner-empty_board,
}
use june_2026_tictactoe_bots.Engine.Judging.{IsMove}
use june_2026_tictactoe_bots.Match.{
  Reason, Turn, accepted, forfeited, play_turn, Run, returned, no_result, Bots, played, refused,
  turns_from, failed, ip_of, game_loop, run_match_from_pods,
}
use june_2026_tictactoe_bots.Match.Turns.{play_turn-IsMove, play_turn-crashed}
use june_2026_tictactoe_bots.Match.Rules.{
  Game, forfeits, completes, draws, goes_on, after, free_cells, free_cells-after, IsOpen→pos,
}

-- The run is one of the game that began with `past` and stands at the board, or an exception.
abbrev Continues : List (Move Reason) → ℕ → Player → Board → Run → Type 0
Continues past number p b (returned r) =
    (ms : List (Move Reason)) × (r.moves ≡ past ++ ms) × Game number p b ms r.result
Continues past number p b no_result = ⊥
Continues past number p b Run.crashed = Unit

-- A run that finished is a game by the rules from the empty board, with X first; none ends without
-- a result.
abbrev pub IsSound : Run → Type 0
IsSound (returned r) = Game 1 cross empty_board r.moves r.result
IsSound no_result = ⊥
IsSound Run.crashed = Unit

append_cons :
    (past : List (Move Reason)) (m : Move Reason) (ms : List (Move Reason))
    → (past ++ m ∷ []) ++ ms ≡ past ++ m ∷ ms
append_cons past m ms = append_assoc past (m ∷ []) ms

-- A move after which `check_winner` names a result ends the game with that result.
ends :
    (number : ℕ) (p : Player) (b : Board) (k : Coords) (o : MatchOutcome)
    → cell b k.0 k.1 ≡ dot
    → Describes (after b k p) (some o)
    → ¬ HasLine (after b k p) (other p)
    → Game number p b (played number p (after b k p) ∷ []) o
ends number cross b k x_wins e d n = completes k e d
ends number cross b k o_wins e d n = absurd (n d)
ends number nought b k x_wins e d n = absurd (n d)
ends number nought b k o_wins e d n = completes k e d
ends number cross b k cat e d n = draws k e d.0 d.2
ends number nought b k cat e d n = draws k e d.1 d.2
ends number p b k x_forfeit e d n = absurd d
ends number p b k o_forfeit e d n = absurd d

-- A legal move on an undecided board that decides the match.
decides :
    (number : ℕ) (p : Player) (b new : Board) (o : MatchOutcome)
    → IsMove b new p
    → check_winner b ≡ none
    → check_winner new ≡ some o
    → Game number p b (played number p new ∷ []) o
decides number p b new o m open_b e = rw m.result (
    ends number p b m.at o m.was_free
      (subst (Describes (after b m.at p)) (ap check_winner (sym m.result) ∙ e)
        (check_winner-Describes (after b m.at p)))
      (set_cell-no_line b m.at.0 m.at.1 p (no_line b (other p) open_b)))

-- The game that goes on after a move, put behind that move.
extend :
    (past : List (Move Reason)) (number : ℕ) (p : Player) (b : Board) (k : Coords) (r : Run)
    → cell b k.0 k.1 ≡ dot
    → check_winner (after b k p) ≡ none
    → Continues (past ++ played number p (after b k p) ∷ []) (suc number) (other p) (after b k p) r
    → Continues past number p b r
extend past number p b k (returned r) e open_b (ms, eq, g) = (
  played number p (after b k p) ∷ ms,
  eq ∙ append_cons past (played number p (after b k p)) ms,
  goes_on k e (no_line (after b k p) p open_b) (IsOpen-board (after b k p) open_b) g,
)
extend past number p b k no_result e open_b c = c
extend past number p b k Run.crashed e open_b c = c

-- The same with the move as a relation between two boards.
extend_move :
    (past : List (Move Reason)) (number : ℕ) (p : Player) (b new : Board) (r : Run)
    → IsMove b new p
    → check_winner new ≡ none
    → Continues (past ++ played number p new ∷ []) (suc number) (other p) new r
    → Continues past number p b r
extend_move past number p b new r m e c =
    extend past number p b m.at r m.was_free (rw m.result at e) (rw m.result at c)

pub free_cells-IsMove :
    (b new : Board) (p : Player) (n : ℕ)
    → IsMove b new p
    → free_cells b ≡ suc n
    → free_cells new ≡ n
free_cells-IsMove b new p n m e =
    rw m.result (omega (arith, free_cells-after b m.at.0 m.at.1 p m.was_free))

pub Turn-cases :
    (t : Turn)
    → (t ≡ Turn.crashed) ⊎ ((e : Reason) × (t ≡ forfeited e)) ⊎ ((b : Board) × (t ≡ accepted b))
Turn-cases Turn.crashed = inl refl
Turn-cases (forfeited e) = inr (inl (e, refl))
Turn-cases (accepted b) = inr (inr (b, refl))

-- From a board on which the match is not decided, with one turn left for each free cell, the loop
-- plays a game by the rules, or an exception leaves it.
game_loop-Continues :
    (bots : Bots) (ip : Player → Text) (past : List (Move Reason)) (n number : ℕ) (p : Player)
    (b : Board)
    → free_cells b ≡ n
    → check_winner b ≡ none
    → Continues past number p b (game_loop bots ip (turns_from number p n) b past)
unfolding game_loop
game_loop-Continues bots ip past zero number p b e open_b =
    absurd (omega (arith, IsOpen→pos b (IsOpen-board b open_b)))
game_loop-Continues bots ip past (suc n) number p b e open_b =
    elim (Turn-cases (play_turn b p (bots number (ip p) p (board_to_str b)))) [
      | inl t ↦ rw (t, game_loop) tt
      | inr (inl (reason, t)) ↦
          rw (t, game_loop) (refused number p b reason ∷ [], refl, forfeits reason)
      | inr (inr (new, t)) ↦
          let m = play_turn-IsMove b new p (bots number (ip p) p (board_to_str b)) t in
          elim (Option-cases (check_winner new)) [
            | inl going ↦
                rw (t, game_loop)
                  (rw going (
                    extend_move past number p b new
                      (game_loop bots ip (turns_from (suc number) (other p) n) new
                        (past ++ played number p new ∷ []))
                      m going
                      (game_loop-Continues bots ip (past ++ played number p new ∷ []) n (suc number)
                        (other p) new (free_cells-IsMove b new p n m e) going)))
            | inr (o, over) ↦
                rw (t, game_loop)
                  (rw over (played number p new ∷ [], refl, decides number p b new o m open_b over))
          ]
    ]

pub free_cells-empty_board : free_cells empty_board ≡ 9
unfolding free_cells
free_cells-empty_board = refl

Continues→IsSound : (r : Run) → Continues [] 1 cross empty_board r → IsSound r
Continues→IsSound (returned r) (ms, e, g) = rw e g
Continues→IsSound no_result c = c
Continues→IsSound Run.crashed c = tt

whole_game :
    (bots : Bots) (ip : Player → Text)
    → IsSound (game_loop bots ip (turns_from 1 cross 9) empty_board [])
whole_game bots ip = Continues→IsSound (game_loop bots ip (turns_from 1 cross 9) empty_board []) (
    game_loop-Continues bots ip [] 9 1 cross empty_board free_cells-empty_board
      check_winner-empty_board)

-- Whatever the pods answer, a match that is run to its end has a result, and its record of moves
-- with that result is a game by the rules from the empty board with X to move; only an exception
-- leaves the function without one.
pub run_match_from_pods-IsSound :
    (read : Text → Attempt PodStatus) (bots : Bots) (pod_x pod_o : Text)
    → IsSound (run_match_from_pods read bots pod_x pod_o)
unfolding run_match_from_pods
run_match_from_pods-IsSound read bots pod_x pod_o = elim (Attempt-cases (get_pod_ip read pod_x)) [
  | inl e ↦ rw (e, run_match_from_pods) tt
  | inr (ip_x, e) ↦ elim (Attempt-cases (get_pod_ip read pod_o)) [
    | inl f ↦ rw (e, run_match_from_pods) (rw f tt)
    | inr (ip_o, f) ↦ rw (e, run_match_from_pods) (rw f (whole_game bots (ip_of ip_x ip_o)))
  ]
]

-- A run with a result.
abbrev pub HasResult : Run → Type 0
HasResult r = (result : MatchResult Reason) × (r ≡ returned result)

game_loop-ne-crashed :
    (bots : Bots) (ip : Player → Text) (past : List (Move Reason)) (n number : ℕ) (p : Player)
    (b : Board)
    → ((k : ℕ) (address : Text) (q : Player) (text : Text) → bots k address q text ≢ failed)
    → game_loop bots ip (turns_from number p n) b past ≢ Run.crashed
unfolding game_loop
game_loop-ne-crashed bots ip past zero number p b calm h = cc
game_loop-ne-crashed bots ip past (suc n) number p b calm h =
    elim (Turn-cases (play_turn b p (bots number (ip p) p (board_to_str b)))) [
      | inl t ↦
          calm number (ip p) p (board_to_str b)
            (play_turn-crashed b p (bots number (ip p) p (board_to_str b)) t)
      | inr (inl (reason, t)) ↦ cc (rw (t, game_loop) at h)
      | inr (inr (new, t)) ↦ elim (Option-cases (check_winner new)) [
        | inl going ↦
            game_loop-ne-crashed bots ip (past ++ played number p new ∷ []) n (suc number) (other p)
              new calm (rw going at (rw (t, game_loop) at h))
        | inr (o, over) ↦ cc (rw over at (rw (t, game_loop) at h))
      ]
    ]

has_result : (r : Run) → IsSound r → r ≢ Run.crashed → HasResult r
has_result (returned result) s n = (result, refl)
has_result no_result s n = absurd s
has_result Run.crashed s n = absurd (n refl)

-- If both pods have an address and every call ends with a reply or a `URLError`, the match has a
-- result: nine turns are enough.
pub run_match_from_pods-HasResult :
    (read : Text → Attempt PodStatus) (bots : Bots) (pod_x pod_o : Text) {ip_x ip_o : Text}
    → get_pod_ip read pod_x ≡ ok ip_x
    → get_pod_ip read pod_o ≡ ok ip_o
    → ((k : ℕ) (address : Text) (q : Player) (text : Text) → bots k address q text ≢ failed)
    → HasResult (run_match_from_pods read bots pod_x pod_o)
unfolding run_match_from_pods
run_match_from_pods-HasResult read bots pod_x pod_o {ip_x} {ip_o} e f calm =
    rw (e, run_match_from_pods)
      (rw f (
        has_result (game_loop bots (ip_of ip_x ip_o) (turns_from 1 cross 9) empty_board [])
          (whole_game bots (ip_of ip_x ip_o))
          (game_loop-ne-crashed bots (ip_of ip_x ip_o) [] 9 1 cross empty_board calm)))
