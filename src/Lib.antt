-- ===== src/Lib.antt =====
-- A verification library of the tic-tac-toe tournament: bots are uploaded, each gets a pod, every
-- pair of ready bots plays, and the results are stored and counted.
--
-- The parts, and how they interact:
--   Engine    runner/engine.py: boards, their text form, `check_winner`, `validate_move`.
--   Match     dispatcher/match_runner.py: `_play_turn` (play_turn) and `run_match_from_pods`, a loop of
--             nine turns that asks a bot for a board, judges it by the engine, and stops at a forfeit
--             or a result. Match.Rules has the games by the rules as a relation.
--   Pods      dispatcher/pods.py: pod names, status checks and the two polling loops. Pods.Manifest has
--             the manifest that a pod is created from.
--   Bots      example_bots/: the bots as functions from a board to a move; Bots.Perfect has the two that
--             search by minimax. Bots.Honest and Bots.Unbeaten put strategies in the match loop.
--   Store     entities/: the tables as lists of rows in a record Db, and the repositories' methods.
--             Store.Leaderboard has the queries of bots and Store.Listings those of matches and moves.
--   Utils     web/utils.py and web/runtimes.py: fields of a docstring, versioned names, groups of matches.
--   Submit    web/submit.py: `handle_submission` on a World of the database, the build queue, the
--             events and the state of the broker. Submit.Cookies has the ownership cookie of web/utils.py
--             and the upload of a request that carries it.
--   Runner    bot-runner-images/python/turn_server.py: the server of a bot's pod, which runs the bot for
--             each turn, and `request_turn` of dispatcher/pods.py, its client. startup_source is what its
--             main reads from the pod's environment.
--   Play      web/bot_client.py and web/play.py: a bot's turn against a human. Play.Pages has the picker,
--             the display name and the game page.
--   Web       web/main.py: what the pages of matches, families and the leaderboard are given.
--             Web.Routes has a request for each route and serve, which gives it to its handler;
--             Web.Dashboard is the websocket of the dashboard.
--   Messaging messaging/: Rpc has the calls of rpc_client.py as steps of a record Client, Health the
--             checks of health.py and the router that runs them, Routing is routing.py, and Publisher is
--             the `RabbitMQQueue` of rabbitmq.py.
--   Scripts   scripts/: Coverage and Report are js_coverage_report.py, Export is export_bots.py, Seed is
--             seed_example_bots.py and Reset is reset_db.py.
--   Pipeline  dispatcher/pod_builder.py, match_scheduler/main.py, dispatcher/ondeck_handler.py: the three
--             handlers of messages. Pipeline.Rounds lets them run in any order, with uploads between.
--             Pipeline.Tournament adds the queues and the requests to the site. Its consumer loops take one
--             message after the other up to an exception of a handler, and run_workers has the three of
--             them in turn.
--   Text and Prelude have the texts (lists of code points), lists and tests that the parts share.
--             Text.Base64 and Text.Quote are those functions of Python's library.
--
-- State is passed explicitly: a handler takes the database and the queues and gives them back.
-- Exceptions are values (Attempt, Run, Turn, BotTurn). Each handler runs to its end before the next one
-- starts, and a publish of a worker succeeds; an upload also models the broker that is down, and
-- Messaging.Publisher each request of a connection that may fail. A message whose handler raises is
-- rejected and not put back, and ends the loop and its process; the steps of Pipeline.Tournament start
-- it again with the next message, and run_workers does not. No worker stops between a handler's writes
-- and the acknowledgement.
--
-- Bounds and fuel. The match loop runs over the list of its nine turns; nine is the number of free
-- cells of the empty board, and each accepted move takes one. The polling loops run on fuel: on a
-- clock that advances by a unit in each sleep, timeout + 1 rounds are enough. The clock is a function
-- of the round, in units of the polling interval at most. Minimax and the specification of its value,
-- is_safe, run on fuel above the number of free cells; the bots give it ten. Keys and counts are
-- natural numbers.
--
-- Not modelled: the code behind HTTP, AMQP, Kubernetes and SQLAlchemy, whose answers are arguments;
-- logging; the parser of Python, the JSON codec of cookies, the digit class of regular expressions and
-- the random tokens, which are arguments too; the templates; the start and the end of the web
-- application; the wiring of connections in messaging/connection.py and messaging/client.py; db/ and
-- alembic/. The JSON between the program's own parts is taken as the values that it stands for, and a
-- cookie holds a dict of strings or no dict.
mod Prelude
pub mod Text
pub mod Pods
pub mod Match
pub mod Runner
pub mod Messaging
pub mod Scripts
pub mod Engine
pub mod Bots
pub mod Store
pub mod Utils
pub mod Submit
pub mod Play
pub mod Pipeline
pub mod Web
