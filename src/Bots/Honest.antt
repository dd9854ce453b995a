-- ===== src/Bots/Honest.antt =====
-- A match between two bots that play by the rules has a result, and never a forfeit.
use june_2026_tictactoe_bots.Prelude.{
  ℕ, zero, suc, ◌≡◌, refl, ◌⊎◌, inl, inr, arith, Option, none, some, List, [], ◌∷◌, ◌++◌,
  Option-cases, subst,
}
use june_2026_tictactoe_bots.Text.{Text, codes}
use june_2026_tictactoe_bots.Pods.{Attempt, ok, PodStatus, get_pod_ip}
use june_2026_tictactoe_bots.Engine.{
  Player, cross, nought, other, Board, empty_board, MatchOutcome, x_wins, o_wins, cat, x_forfeit,
  o_forfeit, board_to_str, parse_board, check_winner, Move,
}
use june_2026_tictactoe_bots.Engine.Parsing.{parse_board-board_to_str}
use june_2026_tictactoe_bots.Engine.Winning.{
  Describes, check_winner-Describes, check_winner-empty_board, IsOpen-board,
}
use june_2026_tictactoe_bots.Engine.Judging.{IsMove}
use june_2026_tictactoe_bots.Match.{
  Call, answered, accepted, play_turn, Reason, Run, returned, no_result, Bots, played, turns_from,
  ip_of, game_loop, run_match_from_pods,
}
use june_2026_tictactoe_bots.Match.Legal.{free_cells-IsMove, free_cells-empty_board}
use june_2026_tictactoe_bots.Match.Rules.{free_cells, IsOpen→pos}
use june_2026_tictactoe_bots.Bots.{Strategy, reply}
use june_2026_tictactoe_bots.Bots.Legality.{PlaysFree, PlaysLegal, PlaysFree→PlaysLegal}

-- The pods of two strategies: each reads the board from the text that it is sent.
abbrev pub strategy_of : Strategy → Strategy → Player → Strategy
strategy_of f g cross = f
strategy_of f g nought = g

unfoldable pub answer : Strategy → Player → Option Board → Call
answer f p none =
    answered (record { board = none; error = some (codes "invalid output: empty response") })
answer f p (some b) = reply p b (f p b)

unfoldable pub bots_of : Strategy → Strategy → Bots
unfolding answer
bots_of f g number address p text = answer (strategy_of f g p) p (parse_board text)

-- The run ended with a line or a draw.
abbrev pub EndsOnTheBoard : Run → Type 0
EndsOnTheBoard (returned r) = (r.result ≡ x_wins) ⊎ (r.result ≡ o_wins) ⊎ (r.result ≡ cat)
EndsOnTheBoard no_result = ⊥
EndsOnTheBoard Run.crashed = ⊥

decided :
    (b : Board) (o : MatchOutcome) → Describes b (some o) → (o ≡ x_wins) ⊎ (o ≡ o_wins) ⊎ (o ≡ cat)
decided b x_wins d = inl refl
decided b o_wins d = inr (inl refl)
decided b cat d = inr (inr refl)
decided b x_forfeit d = absurd d
decided b o_forfeit d = absurd d

module _ (f g : Strategy) (free_f : PlaysFree f) (free_g : PlaysFree g) where
  legal_of : (p : Player) → PlaysLegal (strategy_of f g p)
  legal_of cross = PlaysFree→PlaysLegal f free_f
  legal_of nought = PlaysFree→PlaysLegal g free_g

  turn_of :
      (number : ℕ) (address : Text) (p : Player) (b : Board)
      → check_winner b ≡ none
      → (new : Board) × (play_turn b p (bots_of f g number address p (board_to_str b))
          ≡ accepted new)
        × IsMove b new p
  unfolding bots_of
  turn_of number address p b e = rw (parse_board-board_to_str b) (legal_of p p b (IsOpen-board b e))

  honest_loop :
      (ip : Player → Text) (past : List (Move Reason)) (n number : ℕ) (p : Player) (b : Board)
      → free_cells b ≡ n
      → check_winner b ≡ none
      → EndsOnTheBoard (game_loop (bots_of f g) ip (turns_from number p n) b past)
  unfolding game_loop
  honest_loop ip past zero number p b e open_b =
      absurd (omega (arith, IsOpen→pos b (IsOpen-board b open_b)))
  honest_loop ip past (suc n) number p b e open_b =
      let (new, t, m) = turn_of number (ip p) p b open_b in
      elim (Option-cases (check_winner new)) [
        | inl going ↦
            rw (t, game_loop)
              (rw going (
                honest_loop ip (past ++ played number p new ∷ []) n (suc number) (other p) new
                  (free_cells-IsMove b new p n m e) going))
        | inr (o, over) ↦
            rw (t, game_loop)
              (rw over (decided new o (subst (Describes new) over (check_winner-Describes new))))
      ]

  -- If both pods have an address and both bots, on every board with a free cell, put their mark in a
  -- free cell, the match ends with a line or a draw, and with no forfeit.
  pub honest_match :
      (read : Text → Attempt PodStatus) (pod_x pod_o : Text) {ip_x ip_o : Text}
      → get_pod_ip read pod_x ≡ ok ip_x
      → get_pod_ip read pod_o ≡ ok ip_o
      → EndsOnTheBoard (run_match_from_pods read (bots_of f g) pod_x pod_o)
  unfolding run_match_from_pods
  honest_match read pod_x pod_o {ip_x} {ip_o} e h =
      rw (e, run_match_from_pods)
        (rw h (
          honest_loop (ip_of ip_x ip_o) [] 9 1 cross empty_board free_cells-empty_board
            check_winner-empty_board))
