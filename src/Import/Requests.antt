-- ===== src/Import/Requests.antt =====
-- src/import/multiroute.rs around its exchanges: the next request's head on a keep-alive connection,
-- the body of a request that no backend takes, and the loop over the requests.
pub mod Progress
use zenoh_bridge_tcp.Prelude.{
  ℕ, zero, suc, ◌+◌, Bool, true, false, not, ◌&&◌, ◌||◌, List, [], ◌∷◌, ◌++◌, Option, some, none,
  Result, ok, err, length, if◌then◌else◌,
}
use zenoh_bridge_tcp.Text.{Text, codes, is_empty}
use zenoh_bridge_tcp.Spec.{unwrap_or, is_some}
use zenoh_bridge_tcp.Export.Relay.{Bytes}
use zenoh_bridge_tcp.Import.Parser.{Side, initiator, responder, push_bytes, drain_events}
use zenoh_bridge_tcp.Import.Http.{
  RequestHead, HttpEvent, request_head, body, trailers, end, Poison, HttpParser,
}

-- One turn at the client's socket: bytes, none at its end; a failure or the idle timeout; the drain.
pub data ClientRead : Type 0 where
  bytes : Bytes → ClientRead
  failed drained : ClientRead

pub data NextRequest : Type 0 where
  got : RequestHead → NextRequest
  clean_end : NextRequest
  malformed : Bool → Text → NextRequest

-- What the events and the tail that wait lead to.
pub data TurnEnd : Type 0 where
  next : NextRequest → TurnEnd
  wants_read spinning : TurnEnd

-- The first request head, and the events behind it; those in front of it are dropped.
unfoldable pub pop_head : List HttpEvent → Option (RequestHead × List HttpEvent)
pop_head [] = none
pop_head (request_head h ∷ evs) = some (h, evs)
pop_head (_ ∷ evs) = pop_head evs

-- The events behind the end of the body; none if it is not among them.
unfoldable pub pop_body : List HttpEvent → Option (List HttpEvent)
pop_body [] = none
pop_body (end initiator ∷ evs) = some evs
pop_body (request_head h ∷ evs) = some (request_head h ∷ evs)
pop_body (_ ∷ evs) = pop_body evs

module _ (http : HttpParser) where
  -- What the requests of a connection share.
  pub record Client : Type 0 where
    pub parser : http.parser.State
    pub events : List HttpEvent
    pub leftover : Bytes
    pub client_eof : Bool

  -- Bytes go into the parser, and its events behind those that wait.
  unfoldable pub offer : Client → Bytes → Client
  offer c bs =
      let (p, rest) = push_bytes http.parser initiator c.parser bs in
      let (p', events) = drain_events http.parser p c.events in
      record c { parser = p'; events = events; leftover = rest }

  unfoldable pub client_ends : Client → Client
  client_ends c =
      let (p, events) = drain_events http.parser (http.fin initiator c.parser) c.events in
      record c { parser = p; events = events; client_eof = true }

  abbrev pub poisoned_request : Poison → NextRequest
  poisoned_request p = malformed (unwrap_or p.client_fault true) p.reason

  abbrev pub tunnel_reason : Text
  tunnel_reason = codes "connection switched protocols before a routable request head"

  -- Behind a push: the poison, or what follows.
  abbrev pub or_poison : Option Poison → TurnEnd × Client → TurnEnd × Client → TurnEnd × Client
  or_poison none bad rest = rest
  or_poison (some p) (_, c) rest = (next (poisoned_request p), c)

  -- The turns of the loop that read nothing; a turn with a tail that is offered again goes on.
  unfoldable pub settle : ℕ → Client → TurnEnd × Client
  settle zero c = (spinning, c)
  settle (suc n) c = elim (pop_head c.events) [
    | some (h, evs) ↦ (next (got h), record c { events = evs })
    | none ↦
        let c0 : Client = record c { events = [] } in
        let c1 = offer c0 c0.leftover in
        let again = settle n c1 in
        if c.client_eof
        then (next clean_end, c0)
        else if http.is_tunnelled c.parser
        then (next (malformed false tunnel_reason), c0)
        else if is_empty c.leftover
        then (wants_read, c0)
        else or_poison (http.poison c1.parser) (spinning, c1) again
  ]

  -- Turns enough: each takes a byte of the tail.
  abbrev pub settled : Client → TurnEnd × Client
  settled c = settle (suc (length c.leftover)) c

  -- Only the first request treats a failure as a fault.
  abbrev pub read_failure : Bool → NextRequest
  read_failure first =
      if first then malformed true (codes "timeout or error reading the request") else clean_end

  abbrev pub or_poisoned :
      Option Poison → Client → Option (NextRequest × Client) → Option (NextRequest × Client)
  or_poisoned none c rest = rest
  or_poisoned (some p) c rest = some (poisoned_request p, c)

  -- Behind the turns that read nothing: the request, or what a read leads to.
  abbrev pub next_turn :
      TurnEnd × Client → Option (NextRequest × Client) → Option (NextRequest × Client)
  next_turn (next r, c) rest = some (r, c)
  next_turn (wants_read, c) rest = rest
  next_turn (spinning, c) rest = none

  -- `next_request_head`: none while it still reads.
  unfoldable pub next_request_head : Bool → Client → List ClientRead → Option (NextRequest × Client)
  next_request_head first c [] = next_turn (settled c) none
  next_request_head first c (failed ∷ reads) =
      next_turn (settled c) (some (read_failure first, (settled c).1))
  next_request_head first c (drained ∷ reads) =
      next_turn (settled c) (some (clean_end, (settled c).1))
  next_request_head first c (bytes [] ∷ reads) =
      let rest = next_request_head first (client_ends (settled c).1) reads in
      next_turn (settled c) rest
  next_request_head first c (bytes (b ∷ bs) ∷ reads) =
      let c1 = offer (settled c).1 (b ∷ bs) in
      let rest = next_request_head first c1 reads in
      next_turn (settled c) (or_poisoned (http.poison c1.parser) c1 rest)

  abbrev pub refuses : Client → Bool
  refuses c = is_some (http.poison c.parser) || http.is_tunnelled c.parser

  -- The turns of the loop over a body that read nothing.
  unfoldable pub settle_body : ℕ → Client → Option (Bool × Client)
  settle_body zero c = none
  settle_body (suc n) c =
      let c1 = if is_empty c.leftover then c else offer c c.leftover in
      let again = settle_body n (record c1 { events = [] }) in
      if not (is_empty c.leftover) && refuses c1
      then some (true, c1)
      else elim (pop_body c1.events) [
        | some evs ↦ some (true, record c1 { events = evs })
        | none ↦
            if c1.client_eof
            then some (true, record c1 { events = [] })
            else if is_empty c1.leftover
            then some (false, record c1 { events = [] })
            else again
      ]

  abbrev pub settled_body : Client → Option (Bool × Client)
  settled_body c = settle_body (suc (length c.leftover)) c

  -- Behind the turns that read nothing: the end, or a read.
  abbrev pub body_turn : Option (Bool × Client) → Option Client → Option Client
  body_turn none rest = none
  body_turn (some (true, c)) rest = some c
  body_turn (some (false, c)) rest = rest

  -- What the client was before a read.
  abbrev pub body_client : Option (Bool × Client) → Client → Client
  body_client none c = c
  body_client (some (over, c')) c = c'

  -- `consume_request_body`: none while it still reads.
  unfoldable pub consume_request_body : Client → List ClientRead → Option Client
  consume_request_body c [] = body_turn (settled_body c) none
  consume_request_body c (failed ∷ reads) =
      body_turn (settled_body c) (some (body_client (settled_body c) c))
  consume_request_body c (drained ∷ reads) =
      body_turn (settled_body c) (some (body_client (settled_body c) c))
  consume_request_body c (bytes [] ∷ reads) =
      let c' = body_client (settled_body c) c in
      body_turn (settled_body c) (consume_request_body (client_ends c') reads)
  consume_request_body c (bytes (b ∷ bs) ∷ reads) =
      let c1 = offer (body_client (settled_body c) c) (b ∷ bs) in
      let rest = consume_request_body c1 reads in
      body_turn (settled_body c) (if refuses c1 then some c1 else rest)
