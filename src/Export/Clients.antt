-- ===== src/Export/Clients.antt =====
-- src/export/bridge.rs: the map from client ids to the cancellation channels of their tasks. A
-- channel is named by the number under which it was made: `same_channel` is equality of the numbers.
-- The map, a `HashMap`, is a list of pairs.
pub mod Tracking
use zenoh_bridge_tcp.Prelude.{
  ℕ, suc, ◌≡◌, Bool, true, false, List, [], ◌∷◌, ◌++◌, Option, some, none, map, ◌==◌, if◌then◌else◌,
}
use zenoh_bridge_tcp.Text.{Text, text_eq, is_empty}
use zenoh_bridge_tcp.Election.{SampleKind, Sample, put, delete, last_segment}

-- The map, the next channel's number, and the channels that a cancel was sent to.
pub record Clients : Type 0 where
  pub tracked : List (Text × ℕ)
  pub next : ℕ
  pub cancelled : List ℕ

unfoldable pub no_clients : Clients
no_clients = record { tracked = []; next = 0; cancelled = [] }

unfoldable pub lookup : Text → List (Text × ℕ) → Option ℕ
lookup id [] = none
lookup id ((i, ch) ∷ m) = if text_eq id i then some ch else lookup id m

unfoldable pub remove_id : Text → List (Text × ℕ) → List (Text × ℕ)
remove_id id [] = []
remove_id id ((i, ch) ∷ m) = let m' = remove_id id m in if text_eq id i then m' else (i, ch) ∷ m'

-- `dispatch_client_connect`: a tracked client is left alone, another one's task is spawned with a
-- fresh channel.
abbrev pub spawn_client : Option ℕ → Clients → Text → Clients
spawn_client (some ch) c id = c
spawn_client none c id = record c { tracked = (id, c.next) ∷ c.tracked; next = suc c.next }

unfoldable pub dispatch_client_connect : Clients → Text → Clients
dispatch_client_connect c id = spawn_client (lookup id c.tracked) c id

-- `handle_client_disconnect`: the entry is taken out and its task cancelled.
abbrev pub cancel_client : Option ℕ → Clients → Text → Clients
cancel_client (some ch) c id = record c {
  tracked = remove_id id c.tracked;
  cancelled = c.cancelled ++ ch ∷ [];
}
cancel_client none c id = c

unfoldable pub handle_client_disconnect : Clients → Text → Clients
handle_client_disconnect c id = cancel_client (lookup id c.tracked) c id

-- `remove_if_current`: whether an entry was removed, and the map behind it.
abbrev pub same_channel : Option ℕ → ℕ → Bool
same_channel none own = false
same_channel (some ch) own = ch == own

unfoldable pub remove_if_current : Clients → Text → ℕ → Clients × Bool
remove_if_current c id own =
    if same_channel (lookup id c.tracked) own
    then (record c { tracked = remove_id id c.tracked }, true)
    else (c, false)

-- `drain_all_clients`: every entry is taken out and cancelled.
abbrev pub channel_of : Text × ℕ → ℕ
channel_of (id, ch) = ch

unfoldable pub drain_all_clients : Clients → Clients
drain_all_clients c = record c { tracked = []; cancelled = c.cancelled ++ map channel_of c.tracked }

-- One liveliness sample of the loop in `serve_active`, and one reply of its query.
abbrev pub on_kind : SampleKind → Clients → Text → Clients
on_kind put c id = dispatch_client_connect c id
on_kind delete c id = handle_client_disconnect c id

unfoldable pub on_sample : Clients → Sample → Clients
on_sample c s = if is_empty (last_segment s.key) then c else on_kind s.kind c (last_segment s.key)

unfoldable pub on_reply : Clients → Text → Clients
on_reply c key =
    if is_empty (last_segment key) then c else dispatch_client_connect c (last_segment key)

-- What the map goes through: a reply, a sample, the end of the task of a client and a channel, and a
-- drain.
pub data ClientOp : Type 0 where
  reply : Text → ClientOp
  sample : Sample → ClientOp
  task_ends : Text → ℕ → ClientOp
  drain : ClientOp

unfoldable pub client_step : Clients → ClientOp → Clients
client_step c (reply key) = on_reply c key
client_step c (sample s) = on_sample c s
client_step c (task_ends id ch) = (remove_if_current c id ch).0
client_step c drain = drain_all_clients c

unfoldable pub client_steps : Clients → List ClientOp → Clients
client_steps c [] = c
client_steps c (op ∷ ops) = client_steps (client_step c op) ops
