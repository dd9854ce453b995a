-- ===== src/Scripts/Reset.antt =====
-- scripts/reset_db.py: the reset of the tables, the queues and the pods. The management API of RabbitMQ,
-- alembic and kubectl answer as arguments.
use june_2026_tictactoe_bots.Prelude.{
  ℕ, suc, Bool, true, false, Option, none, some, List, [], ◌∷◌, ◌++◌, if◌then◌else◌,
}
use june_2026_tictactoe_bots.Text.{Text, codes, starts_with}
use june_2026_tictactoe_bots.Text.Base64.{b64encode}
use june_2026_tictactoe_bots.Text.Quote.{quote}
use june_2026_tictactoe_bots.Pods.{Attempt, ok, raised}

-- An entry of the list of queues, as far as it is read.
pub record QueueInfo : Type 0 where
  pub name : Text
  pub vhost : Text

-- `RABBITMQ_MGMT_URL`, `RABBITMQ_USER` and `RABBITMQ_PASS`
pub record Management : Type 0 where
  pub url : Text
  pub user : Text
  pub password : Text

-- How a request to the API ends: with a reply, an `HTTPError` of a status, a `URLError` or
-- `TimeoutError`, or another exception. A reply to a listing is the list, and to a deletion empty.
pub data ApiReply : Type 0 where
  replied : List QueueInfo → ApiReply
  http_error : ℕ → ApiReply
  unreachable : ApiReply
  broken : ApiReply

-- The value of the Authorization header.
abbrev pub auth_header : Management → Text
auth_header m = codes "Basic " ++ b64encode (m.user ++ 58 ∷ m.password)

-- `_list_queues`: None if the API cannot be reached; an `HTTPError` is a `URLError`.
unfoldable pub list_queues : ApiReply → Attempt (Option (List QueueInfo))
list_queues (replied queues) = ok (some queues)
list_queues (http_error code) = ok none
list_queues unreachable = ok none
list_queues broken = raised

-- The address of the contents of a queue.
abbrev pub contents_url : Management → QueueInfo → Text
contents_url m q =
    m.url ++ (codes "/api/queues/" ++ (quote q.vhost ++ 47 ∷ (quote q.name ++ codes "/contents")))

-- `_purge_queue`; only an `HTTPError` is caught.
unfoldable pub purge_queue : ApiReply → Attempt Bool
purge_queue (replied body) = ok true
purge_queue (http_error code) = ok false
purge_queue unreachable = raised
purge_queue broken = raised

-- After a purge: the addresses that were deleted from, and the number of queues that were purged.
pub record Purge : Type 0 where
  pub requests : List Text
  pub purged : ℕ
  pub finished : Bool

unfoldable pub purge_next : Purge → Attempt Bool → Purge
purge_next rest (ok true) = record rest { purged = suc rest.purged }
purge_next rest (ok false) = rest
purge_next rest raised = record { requests = []; purged = 0; finished = false }

-- The loop over the queues; `delete` is how the deletion at an address ends.
unfoldable pub purge_from : Management → (Text → ApiReply) → List QueueInfo → Purge
unfolding purge_next
purge_from m delete [] = record { requests = []; purged = 0; finished = true }
purge_from m delete (q ∷ qs) =
    let rest = purge_from m delete qs in
    if starts_with (codes "amq") q.name
    then rest
    else (let after = purge_next rest (purge_queue (delete (contents_url m q))) in
        record after { requests = contents_url m q ∷ after.requests })

unfoldable pub purge_listed :
    Management → (Text → ApiReply) → Attempt (Option (List QueueInfo)) → Purge
purge_listed m delete raised = record { requests = []; purged = 0; finished = false }
purge_listed m delete (ok none) = record { requests = []; purged = 0; finished = true }
purge_listed m delete (ok (some queues)) = purge_from m delete queues

-- `purge_rabbitmq_queues`, for the API's answer to the listing.
unfoldable pub purge_rabbitmq_queues : Management → ApiReply → (Text → ApiReply) → Purge
unfolding purge_listed
purge_rabbitmq_queues m listing delete = purge_listed m delete (list_queues listing)

-- How `kubectl` ends: it ran, it is not installed, it failed, or another exception.
pub data Kubectl : Type 0 where
  deleted not_installed failed interrupted : Kubectl

-- `delete_bot_pods`: whether it returns.
unfoldable pub delete_bot_pods : Kubectl → Bool
delete_bot_pods deleted = true
delete_bot_pods not_installed = true
delete_bot_pods failed = true
delete_bot_pods interrupted = false

-- What `main` did: the steps that were finished, in its order.
pub data ResetStep : Type 0 where
  dropped_tables : ResetStep
  migrated : ResetStep
  purged_queues : Purge → ResetStep
  deleted_pods : ResetStep
  done : ResetStep

after_purge : Purge → Kubectl → List ResetStep
after_purge p pods =
    if p.finished
    then purged_queues p ∷ (if delete_bot_pods pods then deleted_pods ∷ done ∷ [] else [])
    else []

-- `main`: `drops` and `migrates` tell whether the tables could be dropped and whether alembic ended well.
unfoldable pub reset :
    Management → Bool → Bool → ApiReply → (Text → ApiReply) → Kubectl → List ResetStep
unfolding after_purge
reset m drops migrates listing delete pods =
    if drops
    then dropped_tables
      ∷ (if migrates
          then migrated ∷ after_purge (purge_rabbitmq_queues m listing delete) pods
          else [])
    else []
