-- ===== src/Play/Agreement.antt =====
-- The play page and the dispatcher judge a bot's move alike.
use june_2026_tictactoe_bots.Prelude.{
  ◌≡◌, refl, sym, ap, ◌∙◌, ◌↔◌, inl, inr, true, Option, none, some, List, [], ◌∷◌, Bool-cases,
  Option-cases,
}
use june_2026_tictactoe_bots.Text.{Text}
use june_2026_tictactoe_bots.Pods.{Attempt, PodStatus}
use june_2026_tictactoe_bots.Engine.{
  Player, Coords, Board, cell, cell_eq, mark, dot, parse_board, board_to_str, changes, judge,
  validate_move,
}
use june_2026_tictactoe_bots.Engine.Parsing.{parse_board-board_to_str}
use june_2026_tictactoe_bots.Engine.Judging.{IsMove, validate_move_iff}
use june_2026_tictactoe_bots.Store.{Db, Bot, by_id}
use june_2026_tictactoe_bots.Play.{
  TurnRequest, HttpReply, body, object, not_json, not_object, timeout_error, url_error, other_error,
  BotTurn, new_board, forfeit, crashed, get_pod_ip, parse_board_strict, placed,
  validate_one_symbol_placed, compare_boards, request_bot_turn, json_board, call_bot, respond,
  with_ready_pod, play_with, handle_play_turn,
}

parse_board_strict-eq : (t : Text) → parse_board_strict t ≡ parse_board t
unfolding parse_board_strict parse_board
parse_board_strict-eq t = refl

placed_iff :
    (old new : Board) (p : Player) (ks : List Coords)
    → (placed old new p ks ≡ true) ↔ (judge old new p ks ≡ none)
unfolding placed judge
placed_iff old new p [] = ((λ h. cc), (λ h. cc))
placed_iff old new p ((r, c) ∷ []) = elim (Bool-cases (cell_eq (cell old r c) dot)) [
  | inl free ↦ elim (Bool-cases (cell_eq (cell new r c) (mark p))) [
    | inl right ↦ rw (free, right) ((λ h. refl), (λ h. refl))
    | inr wrong ↦ rw (free, wrong) ((λ h. cc), (λ h. cc))
  ]
  | inr taken ↦ rw taken ((λ h. cc), (λ h. cc))
]
placed_iff old new p (k ∷ l ∷ ks) = ((λ h. cc), (λ h. cc))

-- The check of the play page accepts a move exactly when the one of the engine finds no error.
pub validate_one_symbol_placed_iff :
    (old new : Board) (p : Player)
    → (validate_one_symbol_placed old new p ≡ true) ↔ (validate_move old new p ≡ none)
unfolding validate_one_symbol_placed validate_move
validate_one_symbol_placed_iff old new p = placed_iff old new p (changes old new)

one_symbol-IsMove :
    (old new : Board) (p : Player) → validate_one_symbol_placed old new p ≡ true → IsMove old new p
one_symbol-IsMove old new p h =
    (validate_move_iff old new p).0 ((validate_one_symbol_placed_iff old new p).0 h)

-- The two texts are boards, and the second is a legal move of the player on the first.
abbrev pub IsLegalReply : Player → Text → Text → Type 0
IsLegalReply p board text =
    (old : Board) × ((new : Board) × (parse_board board ≡ some old)
      × (parse_board text ≡ some new)
      × IsMove old new p)

compare_boards-IsLegalReply :
    (p : Player) (board text t : Text) (old new : Option Board)
    → parse_board board ≡ old
    → parse_board text ≡ new
    → compare_boards p text old new ≡ new_board t
    → IsLegalReply p board t
unfolding compare_boards
compare_boards-IsLegalReply p board text t (some old) (some new) eo en h =
    elim (Bool-cases (validate_one_symbol_placed old new p)) [
      | inl good ↦
          let same : text ≡ t = cc (rw good at h) in
          (old, (new, eo, ap parse_board (sym same) ∙ en, one_symbol-IsMove old new p good))
      | inr bad ↦ cc (rw bad at h)
    ]
compare_boards-IsLegalReply p board text t (some old) none eo en h = cc
compare_boards-IsLegalReply p board text t none new eo en h = cc

-- A board that `request_bot_turn` returns is a legal move on the board that was sent.
pub request_bot_turn-IsLegalReply :
    (p : Player) (board t : Text) (r : HttpReply)
    → request_bot_turn p board r ≡ new_board t
    → IsLegalReply p board t
unfolding request_bot_turn
request_bot_turn-IsLegalReply p board t (body (object (some text))) h =
    compare_boards-IsLegalReply p board text t (parse_board_strict board) (parse_board_strict text)
      (sym (parse_board_strict-eq board)) (sym (parse_board_strict-eq text)) h
request_bot_turn-IsLegalReply p board t (body (object none)) h = cc
request_bot_turn-IsLegalReply p board t (body not_json) h = cc
request_bot_turn-IsLegalReply p board t (body not_object) h = cc
request_bot_turn-IsLegalReply p board t timeout_error h = cc
request_bot_turn-IsLegalReply p board t url_error h = cc
request_bot_turn-IsLegalReply p board t other_error h = cc

-- The text of a board is accepted as the answer to the text of a board exactly for a legal move.
pub request_bot_turn_iff :
    (old new : Board) (p : Player)
    → (request_bot_turn p (board_to_str old) (body (object (some (board_to_str new))))
        ≡ new_board (board_to_str new))
      ↔ IsMove old new p
unfolding request_bot_turn compare_boards
request_bot_turn_iff old new p =
    rw
      (
        parse_board_strict-eq (board_to_str old),
        parse_board_strict-eq (board_to_str new),
        parse_board-board_to_str old,
        parse_board-board_to_str new,
      )
      (
        λ h. elim (Bool-cases (validate_one_symbol_placed old new p)) [
          | inl good ↦ one_symbol-IsMove old new p good
          | inr bad ↦ cc (rw bad at h)
        ],
        λ m.
            rw ((validate_one_symbol_placed_iff old new p).1 ((validate_move_iff old new p).1 m))
              refl,
      )

respond-new_board : (r : BotTurn) (t : Text) → respond r ≡ json_board t → r ≡ new_board t
unfolding respond
respond-new_board (new_board s) t h = cc
respond-new_board (forfeit e) t h = cc
respond-new_board crashed t h = cc

call_bot-IsLegalReply :
    (post : Text → Player → Text → HttpReply) (payload : TurnRequest) (ip : Option Text) (t : Text)
    → call_bot post payload ip ≡ new_board t
    → IsLegalReply payload.bot_symbol payload.board t
unfolding call_bot
call_bot-IsLegalReply post payload none t h = cc
call_bot-IsLegalReply post payload (some ip) t h =
    request_bot_turn-IsLegalReply payload.bot_symbol payload.board t
      (post ip payload.bot_symbol payload.board) h

-- A board that the play page answers comes from a bot that is ready and has a pod, and is a legal move
-- on the board of the request.
pub handle_play_turn-IsLegalReply :
    (read : Text → Attempt PodStatus) (post : Text → Player → Text → HttpReply) (db : Db)
    (payload : TurnRequest) (t : Text)
    → handle_play_turn read post db payload ≡ json_board t
    → ((bot : Bot) × ((name : Text) × (by_id db payload.bot_id ≡ some bot)
          × (bot.pod_ready ≡ true)
          × (bot.pod_name ≡ some name)))
      × IsLegalReply payload.bot_symbol payload.board t
unfolding handle_play_turn play_with with_ready_pod
handle_play_turn-IsLegalReply read post db payload t h =
    elim (Option-cases (by_id db payload.bot_id)) [
      | inl n ↦ cc (rw n at h)
      | inr (bot, found) ↦ elim (Bool-cases bot.pod_ready) [
        | inr waits ↦ cc (rw waits at (rw found at h))
        | inl ready ↦ elim (Option-cases bot.pod_name) [
          | inl n ↦ cc (rw (ready, n) at (rw found at h))
          | inr (name, named) ↦ (
            (bot, (name, found, ready, named)),
            call_bot-IsLegalReply post payload (get_pod_ip read name) t (
                respond-new_board (call_bot post payload (get_pod_ip read name)) t
                  (rw (ready, named) at (rw found at h))),
          )
        ]
      ]
    ]
