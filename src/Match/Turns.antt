-- ===== src/Match/Turns.antt =====
-- `_play_turn` accepts a board exactly when the bot answered with a legal move.
use june_2026_tictactoe_bots.Prelude.{
  ◌≡◌, refl, ◌≢◌, false, not, ◌||◌, ◌↔◌, inl, inr, arith, Option, none, some, Bool-cases, [], ◌∷◌,
  Option-cases, ap, sym, ◌∙◌,
}
use june_2026_tictactoe_bots.Text.{Text}
use june_2026_tictactoe_bots.Pods.{is_truthy}
use june_2026_tictactoe_bots.Engine.{
  Player, Board, MoveError, parse_board, board_to_str, validate_move,
}
use june_2026_tictactoe_bots.Engine.Judging.{IsMove, validate_move_iff}
use june_2026_tictactoe_bots.Engine.Parsing.{parse_board-nil, parse_board-board_to_str}
use june_2026_tictactoe_bots.Match.{
  Call, answered, url_error, failed, Turn, accepted, play_turn, judged, parsed, read_reply,
}

judged-accepted :
    (new b : Board) (o : Option MoveError) → judged new o ≡ accepted b → (o ≡ none) × (new ≡ b)
unfolding judged
judged-accepted new b none h = (refl, cc)
judged-accepted new b (some e) h = cc

parsed-accepted :
    (board b : Board) (p : Player) (t : Text) (o : Option Board)
    → parsed board p t o ≡ accepted b
    → (o ≡ some b) × IsMove board b p
unfolding parsed
parsed-accepted board b p t none h = cc
parsed-accepted board b p t (some new) h =
    let (legal, same) = judged-accepted new b (validate_move board new p) h in
    (ap some same, (validate_move_iff board b p).0 (rw same at legal))

-- A reply that is accepted names no error and holds the text of the accepted board.
read_reply-accepted :
    (board b : Board) (p : Player) (error text : Option Text)
    → read_reply board p error text ≡ accepted b
    → (t : Text) × (text ≡ some t)
      × (is_truthy error ≡ false)
      × (parse_board t ≡ some b)
      × IsMove board b p
unfolding read_reply
read_reply-accepted board b p error none h = cc
read_reply-accepted board b p error (some t) h =
    elim (Bool-cases (is_truthy error || not (is_truthy (some t)))) [
      | inl bad ↦ cc (rw bad at h)
      | inr good ↦
          let (text, move) = parsed-accepted board b p t (parse_board t) (rw good at h) in
          (t, refl, ground arith, text, move)
    ]

pub play_turn-IsMove :
    (board b : Board) (p : Player) (c : Call) → play_turn board p c ≡ accepted b → IsMove board b p
unfolding play_turn
play_turn-IsMove board b p (answered r) h = (read_reply-accepted board b p r.error r.board h).4
play_turn-IsMove board b p (url_error e) h = cc
play_turn-IsMove board b p failed h = cc

judged-ne-crashed : (new : Board) (o : Option MoveError) → judged new o ≢ Turn.crashed
unfolding judged
judged-ne-crashed new none h = cc
judged-ne-crashed new (some e) h = cc

read_reply-ne-crashed :
    (board : Board) (p : Player) (error text : Option Text)
    → read_reply board p error text ≢ Turn.crashed
unfolding read_reply parsed
read_reply-ne-crashed board p error none h = cc
read_reply-ne-crashed board p error (some t) h =
    elim (Bool-cases (is_truthy error || not (is_truthy (some t)))) [
      | inl bad ↦ cc (rw bad at h)
      | inr good ↦ elim (Option-cases (parse_board t)) [
        | inl e ↦ cc (rw (good, e) at h)
        | inr (new, e) ↦ judged-ne-crashed new (validate_move board new p) (rw (good, e) at h)
      ]
    ]

-- Only an exception other than `URLError` gets out of a turn.
pub play_turn-crashed :
    (board : Board) (p : Player) (c : Call) → play_turn board p c ≡ Turn.crashed → c ≡ failed
unfolding play_turn
play_turn-crashed board p (answered r) h = absurd (read_reply-ne-crashed board p r.error r.board h)
play_turn-crashed board p (url_error e) h = cc
play_turn-crashed board p failed h = refl

-- A pod's reply with the text of a board and no error.
abbrev pub reply_with : Board → Call
reply_with new = answered (record { board = some (board_to_str new); error = none })

-- A reply that holds the text of a board, and no error, is accepted as that board exactly when the
-- board is a legal move.
pub play_turn-reply_with :
    (board new : Board) (p : Player)
    → (play_turn board p (reply_with new) ≡ accepted new) ↔ IsMove board new p
play_turn-reply_with board new p = (
  play_turn-IsMove board new p (reply_with new),
  λ m. accepts ((validate_move_iff board new p).1 m),
)
  where
    accepts : validate_move board new p ≡ none → play_turn board p (reply_with new) ≡ accepted new
    accepts e =
        unfold play_turn read_reply parsed judged board_to_str in
        rw (parse_board-board_to_str new, e) refl

-- The text of a board is accepted as that board or not at all.
pub reply_with-accepted :
    (board x new : Board) (p : Player)
    → play_turn board p (reply_with x) ≡ accepted new
    → (x ≡ new) × IsMove board new p
unfolding play_turn
reply_with-accepted board x new p h =
    let (t, same, quiet, text, m) =
      read_reply-accepted board new p none (some (board_to_str x)) h in
    let printed : board_to_str x ≡ t = cc same in
    (cc (sym (parse_board-board_to_str x) ∙ ap parse_board printed ∙ text), m)

-- A reply that names no error and holds a text is accepted exactly when the text reads as a legal
-- move.
pub play_turn-text_iff :
    (board new : Board) (p : Player) (t : Text)
    → (play_turn board p (answered (record { board = some t; error = none })) ≡ accepted new)
      ↔ ((parse_board t ≡ some new) × IsMove board new p)
unfolding play_turn
play_turn-text_iff board new p t = (from_turn, to_turn t)
  where
    from_turn :
        read_reply board p none (some t) ≡ accepted new
        → (parse_board t ≡ some new) × IsMove board new p
    from_turn h =
        let (u, same, quiet, text, m) = read_reply-accepted board new p none (some t) h in (cc, m)

    to_turn :
        (u : Text)
        → (parse_board u ≡ some new) × IsMove board new p
        → read_reply board p none (some u) ≡ accepted new
    to_turn [] (e, m) = cc (sym parse_board-nil ∙ e)
    to_turn (c ∷ s) (e, m) =
        unfold read_reply parsed judged in rw (e, (validate_move_iff board new p).1 m) refl
