-- ===== src/Import/KeepAlive/Turns.antt =====
-- What one turn of the loop in src/import/multiroute.rs leaves of a connection.
use zenoh_bridge_tcp.Prelude.{
  ℕ, suc, ◌≡◌, ◌⊎◌, inl, inr, refl, subst, true, false, List, [], ◌∷◌, ◌++◌, Option, some, none, ok,
  Result, err, sym, Option-cases, Result-cases, All, All-append,
}
use zenoh_bridge_tcp.Text.{Text}
use zenoh_bridge_tcp.Dns.{CaseMap}
use zenoh_bridge_tcp.Metrics.{ConnOutcome}
use zenoh_bridge_tcp.HttpUtil.{http_400_response, http_502_response_keep_alive}
use zenoh_bridge_tcp.Import.Route.{BackendRoute, host, default_backend, unavailable}
use zenoh_bridge_tcp.Import.Http.{RequestHead, HttpParser, ReaderError, routing_key_from_head}
use zenoh_bridge_tcp.Import.Requests.{
  NextRequest, got, clean_end, malformed, Client, consume_request_body,
}
use zenoh_bridge_tcp.Import.Exchange.{
  ExchangeEnd, whole, ExchangeError, Exchange, ExchangeOutcome, complete, switched_protocol,
  exchange_outcome,
}
use zenoh_bridge_tcp.Import.Exchange.Limits.{run_exchange-reusable}
use zenoh_bridge_tcp.Import.KeepAlive.{
  end_outcome, route_or_unavailable, Turn, Connection, after_outcome, exchange_of, after_exchange,
  after_route, after_head,
}

module _ (cm : CaseMap) (http : HttpParser) (show_error : ReaderError → Text) (max : ℕ) where
  -- A 502 that leaves the connection open.
  abbrev pub Is502 : Text → Type 0
  Is502 answer = (dns : Text) × (answer ≡ http_502_response_keep_alive dns)

  -- The bridge has answered nothing but such a 502 by itself.
  abbrev pub Only502 : (Connection cm http show_error max) → Type 0
  Only502 c = All Is502 c.answers

  -- Those answers, and a 400 behind them on a connection that is closed and recorded as reset.
  abbrev pub Refused : (Connection cm http show_error max) → Type 0
  Refused c =
      (early : List Text) × (reason : Text) × All Is502 early
      × (c.answers ≡ early ++ http_400_response reason ∷ [])
      × (c.open_still ≡ false)
      × (c.outcome ≡ ConnOutcome.reset)

  -- The connection is closed, or recorded as completed.
  abbrev pub Ended : (Connection cm http show_error max) → Type 0
  Ended c = (c.open_still ≡ false) ⊎ (c.outcome ≡ ConnOutcome.completed)

  abbrev pub Clean : (Connection cm http show_error max) → Type 0
  Clean c = (Only502 c × Ended c) ⊎ Refused c

  -- The client has sent the head of a request with a host that has a routing key.
  abbrev pub RoutedHead : Option (NextRequest × Client http) → Type 0
  RoutedHead o =
      (h : RequestHead) × (client : Client http) × (dns : Text) × (o ≡ some (got h, client))
      × (routing_key_from_head cm h ≡ ok dns)

  after_outcome-Ended :
      (s : Exchange http) (o : ExchangeOutcome) (c : (Connection cm http show_error max))
      → ((e : ExchangeEnd) → o ≡ complete true e → e ≡ whole)
      → c.outcome ≡ ConnOutcome.completed
      → Ended (after_outcome cm http show_error max s o c)
  unfolding end_outcome
  after_outcome-Ended s switched_protocol c h i = inl refl
  after_outcome-Ended s (complete false e) c h i = inl refl
  after_outcome-Ended s (complete true e) c h i = rw (h e refl) (inr i)

  after_exchange-Ended :
      (t : (Turn cm http show_error max)) (client : Client http) (h : RequestHead) (dns : Text)
      (c : (Connection cm http show_error max))
      → c.outcome ≡ ConnOutcome.completed
      → Ended (
          after_exchange cm http show_error max
            (exchange_of cm http show_error max t client h dns)
            c)
  after_exchange-Ended t client h dns c i =
      elim (Result-cases (exchange_of cm http show_error max t client h dns)) [
        | inr (e, why) ↦ rw why (inl refl)
        | inl (s, ran) ↦ rw ran (
            after_outcome-Ended s (exchange_outcome http s) c
              (λ e o.
                (run_exchange-reusable http max dns client.parser client.events client.leftover
                  h.raw client.client_eof t.io t.events ran o).0)
              i)
      ]

  -- An exchange writes its own answers, not the loop's.
  after_outcome-answers :
      (s : Exchange http) (o : ExchangeOutcome) (c : (Connection cm http show_error max))
      → (after_outcome cm http show_error max s o c).answers ≡ c.answers
  after_outcome-answers s (complete keep_alive e) c = refl
  after_outcome-answers s switched_protocol c = refl

  after_exchange-Clean :
      (t : (Turn cm http show_error max)) (client : Client http) (h : RequestHead) (dns : Text)
      (c : (Connection cm http show_error max))
      → Only502 c
      → c.outcome ≡ ConnOutcome.completed
      → Clean (
          after_exchange cm http show_error max
            (exchange_of cm http show_error max t client h dns)
            c)
  after_exchange-Clean t client h dns c o i = inl (
    kept (exchange_of cm http show_error max t client h dns),
    after_exchange-Ended t client h dns c i,
  )
    where
      kept :
          (r : Result ExchangeError (Exchange http))
          → All Is502 (after_exchange cm http show_error max r c).answers
      kept (err e) = o
      kept (ok s) = subst (All Is502) (sym (after_outcome-answers s (exchange_outcome http s) c)) o

  -- What comes of a turn, if it is over: the connection is closed, or the turn had a request that was
  -- routed.
  abbrev pub CleanNext :
      Option (NextRequest × Client http) → Option (Connection cm http show_error max) → Type 0
  CleanNext o none = Unit {0}
  CleanNext o (some c) = Clean c × ((c.open_still ≡ false) ⊎ RoutedHead o)

  after_route-Clean :
      (o : Option (NextRequest × Client http)) (r : BackendRoute)
      (t : (Turn cm http show_error max)) (h : RequestHead) (dns : Text)
      (c : (Connection cm http show_error max))
      → RoutedHead o
      → Only502 c
      → c.outcome ≡ ConnOutcome.completed
      → CleanNext o (after_route cm http show_error max r t h dns c)
  after_route-Clean o host t h dns c routed l i =
      (after_exchange-Clean t c.client h dns c l i, inr routed)
  after_route-Clean o default_backend t h dns c routed l i =
      (after_exchange-Clean t c.client h dns c l i, inr routed)
  after_route-Clean o unavailable t h dns c routed l i =
      elim (Option-cases (consume_request_body http c.client t.body_reads)) [
        | inl e ↦ rw e tt
        | inr (client, e) ↦
            rw e (inl (All-append Is502 c.answers _ l ((dns, refl), tt), inr i), inr routed)
      ]

  pub after_head-Clean :
      (o : Option (NextRequest × Client http)) (t : (Turn cm http show_error max))
      (c : (Connection cm http show_error max))
      → Only502 c
      → c.outcome ≡ ConnOutcome.completed
      → CleanNext o (after_head cm http show_error max o t c)
  after_head-Clean none t c l i = tt
  after_head-Clean (some (clean_end, client)) t c l i = (inl (l, inl refl), inl refl)
  after_head-Clean (some (malformed true reason, client)) t c l i =
      (inr (c.answers, reason, l, refl, refl, refl), inl refl)
  after_head-Clean (some (malformed false reason, client)) t c l i = (inl (l, inl refl), inl refl)
  after_head-Clean (some (got h, client)) t c l i =
      elim (Result-cases (routing_key_from_head cm h)) [
        | inr (e, why) ↦ rw why (inr (c.answers, show_error e, l, refl, refl, refl), inl refl)
        | inl (dns, keyed) ↦ rw keyed (
            after_route-Clean (some (got h, client)) (route_or_unavailable t.route) t h dns
              (record c { client = client; request_num = suc c.request_num })
              (h, client, dns, refl, keyed) l i)
      ]

  -- What is still open has been answered nothing but 502s, and is completed so far.
  pub still_open :
      (c : (Connection cm http show_error max))
      → c.open_still ≡ true
      → Clean c
      → Only502 c × (c.outcome ≡ ConnOutcome.completed)
  still_open c going (inl (l, inl over)) = absurd cc
  still_open c going (inl (l, inr i)) = (l, i)
  still_open c going (inr (early, reason, l, a, over, o)) = absurd cc
