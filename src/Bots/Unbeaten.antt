-- ===== src/Bots/Unbeaten.antt =====
-- Matches of example_bots/perfect_bot_v2.py against any rival.
use june_2026_tictactoe_bots.Prelude.{
  ℕ, zero, suc, ◌<◌, ◌≡◌, ◌≢◌, refl, sym, ap, ◌∙◌, subst, inl, inr, ◌⊎◌, arith, none, some, List,
  [], ◌∷◌, ◌++◌, if◌then◌else◌, Option-cases,
}
use june_2026_tictactoe_bots.Text.{Text}
use june_2026_tictactoe_bots.Pods.{Attempt, PodStatus, get_pod_ip, Attempt-cases}
use june_2026_tictactoe_bots.Engine.{
  Player, cross, nought, other, player_eq, Board, empty_board, MatchOutcome, x_wins, o_wins,
  x_forfeit, o_forfeit, cat, Move, check_winner, board_to_str, parse_board, wins,
}
use june_2026_tictactoe_bots.Engine.Parsing.{parse_board-board_to_str}
use june_2026_tictactoe_bots.Engine.Winning.{
  HasLine, Describes, check_winner-Describes, no_line, IsOpen-board, set_cell-no_line,
  check_winner-empty_board,
}
use june_2026_tictactoe_bots.Engine.Judging.{IsMove}
use june_2026_tictactoe_bots.Match.{
  Reason, Call, Turn, accepted, forfeited, forfeit_label, play_turn, Run, returned, no_result, Bots,
  played, turns_from, ip_of, game_loop, run_match_from_pods,
}
use june_2026_tictactoe_bots.Match.Turns.{play_turn-IsMove, play_turn-reply_with}
use june_2026_tictactoe_bots.Match.Rules.{after, free_cells, IsOpen→pos}
use june_2026_tictactoe_bots.Match.Legal.{Turn-cases, free_cells-IsMove, free_cells-empty_board}
use june_2026_tictactoe_bots.Bots.{reply}
use june_2026_tictactoe_bots.Bots.Honest.{answer}
use june_2026_tictactoe_bots.Bots.Perfect.{perfect_v2}
use june_2026_tictactoe_bots.Bots.Holding.{
  other-other, player_eq_refl, Player-cases, Safe, Safe-empty_board, perfect_v2-Safe, rival-Safe,
  Safe-ne-lost,
}

-- The answers of the pods when `me` is the bot perfect_bot_v2.py and the rival is any.
unfoldable pub perfect_against : Player → Bots → Bots
unfolding answer
perfect_against me rival number address p text =
    if player_eq p me then answer perfect_v2 p (parse_board text) else rival number address p text

-- The player neither was beaten on the board nor forfeited. An exception stores no match.
abbrev pub IsNotLost : Player → Run → Type 0
IsNotLost me (returned r) = (r.result ≢ wins (other me)) × (r.result ≢ forfeit_label me)
IsNotLost me no_result = ⊥
IsNotLost me Run.crashed = Unit

outcome-IsNotLost :
    (me : Player) (b : Board) (o : MatchOutcome)
    → Describes b (some o)
    → ¬ HasLine b (other me)
    → (o ≢ wins (other me)) × (o ≢ forfeit_label me)
outcome-IsNotLost cross b x_wins d n = ((λ e. cc), (λ e. cc))
outcome-IsNotLost cross b o_wins d n = absurd (n d)
outcome-IsNotLost cross b cat d n = ((λ e. cc), (λ e. cc))
outcome-IsNotLost nought b x_wins d n = absurd (n d)
outcome-IsNotLost nought b o_wins d n = ((λ e. cc), (λ e. cc))
outcome-IsNotLost nought b cat d n = ((λ e. cc), (λ e. cc))
outcome-IsNotLost me b x_forfeit d n = absurd d
outcome-IsNotLost me b o_forfeit d n = absurd d

forfeit-IsNotLost :
    (me : Player)
    → (forfeit_label (other me) ≢ wins (other me)) × (forfeit_label (other me) ≢ forfeit_label me)
forfeit-IsNotLost cross = ((λ e. cc), (λ e. cc))
forfeit-IsNotLost nought = ((λ e. cc), (λ e. cc))

-- What a turn may come to: the rival's exception or forfeit, or a legal move after which the player is
-- still safe.
abbrev Outcome : Player → Player → Board → Turn → Type 0
Outcome me p b t =
    ((p ≡ other me) × (t ≡ Turn.crashed))
    ⊎ ((p ≡ other me) × ((e : Reason) × (t ≡ forfeited e)))
    ⊎ ((new : Board) × (t ≡ accepted new) × IsMove b new p × Safe me new (other p))

module _ (me : Player) (rival : Bots) where
  own_turn :
      (number : ℕ) (address : Text) (b : Board)
      → check_winner b ≡ none
      → free_cells b < 10
      → Safe me b me
      → Outcome me me b
          (play_turn b me (perfect_against me rival number address me (board_to_str b)))
  unfolding perfect_against reply
  own_turn number address b e small safe =
      let (k, move, free, good) = perfect_v2-Safe me b e small safe in
      let m : IsMove b (after b k me) me = record { at = k; was_free = free; result = refl } in
      inr (
        inr (
          after b k me,
          rw (player_eq_refl me, parse_board-board_to_str b, move)
              ((play_turn-reply_with b (after b k me) me).1 m),
          m,
          good,
        ))

  rival_turn :
      (number : ℕ) (address : Text) (b : Board)
      → check_winner b ≡ none
      → free_cells b < 10
      → Safe me b (other me)
      → Outcome me (other me) b (
          play_turn b
            (other me)
            (perfect_against me rival number address (other me) (board_to_str b)))
  rival_turn number address b e small safe =
      let call : Call = perfect_against me rival number address (other me) (board_to_str b) in
      elim (Turn-cases (play_turn b (other me) call)) [
        | inl t ↦ inl (refl, t)
        | inr (inl t) ↦ inr (inl (refl, t))
        | inr (inr (new, t)) ↦
            let m = play_turn-IsMove b new (other me) call t in
            inr (
              inr (
                new,
                t,
                m,
                subst (λ c. Safe me c (other (other me))) (sym m.result)
                    (rival-Safe me b m.at e small safe m.was_free),
              ))
      ]

  a_turn :
      (number : ℕ) (address : Text) (p : Player) (b : Board)
      → check_winner b ≡ none
      → free_cells b < 10
      → Safe me b p
      → Outcome me p b (play_turn b p (perfect_against me rival number address p (board_to_str b)))
  a_turn number address p b e small safe = elim (Player-cases p me) [
    | inl mine ↦
        subst
          (λ q.
            Safe me b q
            → Outcome me q b
                (play_turn b q (perfect_against me rival number address q (board_to_str b))))
          (sym mine) (own_turn number address b e small) safe
    | inr theirs ↦
        subst
          (λ q.
            Safe me b q
            → Outcome me q b
                (play_turn b q (perfect_against me rival number address q (board_to_str b))))
          (sym theirs) (rival_turn number address b e small) safe
  ]

  -- After a legal move from an undecided board the rival has no full line.
  move-ne-lost :
      (p : Player) (b new : Board)
      → check_winner b ≡ none
      → IsMove b new p
      → Safe me new (other p)
      → ¬ HasLine new (other me)
  move-ne-lost p b new e m safe =
      let fresh : ¬ HasLine new (other p) =
        subst (λ c. ¬ HasLine c (other p)) (sym m.result)
          (set_cell-no_line b m.at.0 m.at.1 p (no_line b (other p) e)) in
      elim (Player-cases p me) [
        | inl mine ↦ subst (λ q. ¬ HasLine new (other q)) mine fresh
        | inr theirs ↦
            Safe-ne-lost me new (other p) safe
              (subst (λ q. ¬ HasLine new q) (ap other theirs ∙ other-other me) fresh)
      ]

  perfect_loop :
      (ip : Player → Text) (past : List (Move Reason)) (n number : ℕ) (p : Player) (b : Board)
      → n < 10
      → free_cells b ≡ n
      → check_winner b ≡ none
      → Safe me b p
      → IsNotLost me (game_loop (perfect_against me rival) ip (turns_from number p n) b past)
  unfolding game_loop
  perfect_loop ip past zero number p b small e open_b safe =
      absurd (omega (arith, IsOpen→pos b (IsOpen-board b open_b)))
  perfect_loop ip past (suc n) number p b small e open_b safe =
      elim (a_turn number (ip p) p b open_b (omega arith) safe) [
        | inl (theirs, t) ↦ rw (t, game_loop) tt
        | inr (inl (theirs, (reason, t))) ↦
            rw (t, game_loop)
              (subst
                (λ q. (forfeit_label q ≢ wins (other me)) × (forfeit_label q ≢ forfeit_label me))
                (sym theirs) (forfeit-IsNotLost me))
        | inr (inr (new, t, m, good)) ↦ elim (Option-cases (check_winner new)) [
          | inl going ↦
              rw (t, game_loop)
                (rw going (
                  perfect_loop ip (past ++ played number p new ∷ []) n (suc number) (other p) new
                    (omega arith) (free_cells-IsMove b new p n m e) going good))
          | inr (o, over) ↦
              rw (t, game_loop)
                (rw over (
                  outcome-IsNotLost me new o
                    (subst (Describes new) over (check_winner-Describes new))
                    (move-ne-lost p b new open_b m good)))
        ]
      ]

-- Whatever the rival's pod answers, and whichever side it has, version 2 of the perfect bot does not
-- lose: a match that is run to its end has a result, which is neither a win of the rival nor a forfeit
-- of the bot.
pub perfect_v2-IsNotLost :
    (me : Player) (rival : Bots) (read : Text → Attempt PodStatus) (pod_x pod_o : Text)
    → IsNotLost me (run_match_from_pods read (perfect_against me rival) pod_x pod_o)
unfolding run_match_from_pods
perfect_v2-IsNotLost me rival read pod_x pod_o = elim (Attempt-cases (get_pod_ip read pod_x)) [
  | inl e ↦ rw (e, run_match_from_pods) tt
  | inr (ip_x, e) ↦ elim (Attempt-cases (get_pod_ip read pod_o)) [
    | inl f ↦ rw (e, run_match_from_pods) (rw f tt)
    | inr (ip_o, f) ↦
        rw (e, run_match_from_pods)
          (rw f (
            perfect_loop me rival (ip_of ip_x ip_o) [] 9 1 cross empty_board (omega arith)
              free_cells-empty_board check_winner-empty_board (Safe-empty_board me)))
  ]
]
