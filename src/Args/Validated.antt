-- ===== src/Args/Validated.antt =====
-- What the run-time code may rely on once the command line was validated.
use zenoh_bridge_tcp.Prelude.{
  ◌≡◌, ◌≢◌, ap, subst, ok-inj, All-map, ◌≤◌, sym, refl, true, false, not, Bool, ◌&&◌, List, [], ◌∷◌,
  ok, Result, ◌>>◌, ◌>>=◌, guard, Result-cases, inl, inr, All, arith, bind-eq-ok, then-eq-ok,
  leb→le, Option, some, none,
}
use zenoh_bridge_tcp.Text.{Text, text_eq_refl}
use zenoh_bridge_tcp.Config.{parse_reliability, BridgeConfig, new_config}
use zenoh_bridge_tcp.Dns.{CaseMap}
use zenoh_bridge_tcp.Spec.{SocketText, ListenSpec, parse_listen, BackendSpec, parse_backend}
use zenoh_bridge_tcp.Spec.Listen
use zenoh_bridge_tcp.Spec.Backend
use zenoh_bridge_tcp.Logging.{LogOptions, LogTarget, parse_log_target, parse_format, parse_color}
use zenoh_bridge_tcp.Logging.Target
use zenoh_bridge_tcp.Args.{
  Args, no_specs, parse_all, same_scope, seen_scope, is_nil, asks_terminate, is_level, sinks,
  listen_specs, scope_of, check_scopes, check_tls, check_bounds, log_options, check_log,
  bridge_config, backend_specs, validate,
}

-- Whatever a parser returns has a property, and so have all that a list is parsed to.
parse_all_cases :
    {A B E : Type 0} (parse : A → Result E B) (x : A) (xs : List A) {ys : List B}
    → parse_all parse (x ∷ xs) ≡ ok ys
    → (y : B) × (zs : List B) × (ys ≡ y ∷ zs) × (parse x ≡ ok y) × (parse_all parse xs ≡ ok zs)
unfolding parse_all
parse_all_cases parse x xs e =
    let (y, first, rest) = bind-eq-ok (parse x) (λ y. parse_all parse xs >>= λ ys. ok (y ∷ ys)) e in
    let (zs, others, done) = bind-eq-ok (parse_all parse xs) (λ ys. ok (y ∷ ys)) rest in
    (y, zs, sym (ok-inj done), first, others)

parse_all-All :
    {A B E : Type 0} (P : B → Type 0) (parse : A → Result E B)
    → ((x : A) (y : B) → parse x ≡ ok y → P y)
    → (xs : List A) {ys : List B} → parse_all parse xs ≡ ok ys
    → All P ys
unfolding parse_all
parse_all-All P parse h [] e = subst (λ ys. All P ys) (ok-inj e) tt
parse_all-All P parse h (x ∷ xs) e =
    let (y, zs, same, first, others) = parse_all_cases parse x xs e in
    rw same (h x y first, parse_all-All P parse h xs others)

same_scope_refl : (x : Text × Option Text) → same_scope x x ≡ true
same_scope_refl (s, none) = rw text_eq_refl refl
same_scope_refl (s, some h) = rw text_eq_refl (rw text_eq_refl refl)

seen_scope-false :
    (x : Text × Option Text) (seen : List (Text × Option Text))
    → seen_scope x seen ≡ false
    → All (λ y. x ≢ y) seen
seen_scope-false x [] h = tt
seen_scope-false x (y ∷ seen) h = (
  λ e. absurd (ground (arith, same_scope_refl x, ap (same_scope x) e)),
  seen_scope-false x seen (ground arith),
)

-- The logging surface of a command line that was validated.
pub record IsLoggable (o : LogOptions) : Type 0 where
  pub sinks_fit : All Target.IsValid o.targets
  pub some_sink : o.targets ≢ []
  pub level : is_level o.level ≡ true

sinks-IsLoggable :
    (ts : List Text) {s : List LogTarget} → sinks ts ≡ ok s → All Target.IsValid s × (s ≢ [])
unfolding sinks
sinks-IsLoggable [] e = subst (λ s. All Target.IsValid s × (s ≢ [])) (ok-inj e) ((tt, tt), λ h. cc)
sinks-IsLoggable (t ∷ ts) e =
    let (y, zs, same, _, _) = parse_all_cases parse_log_target t ts e in
    (
      parse_all-All Target.IsValid parse_log_target (λ x y h. Target.parse_log_target-IsValid x h)
          (t ∷ ts) e,
      λ h. cc,
    )

module _ (net : SocketText) where
  -- The flags' bounds, as the configuration has them.
  pub record IsRunnable (c : BridgeConfig) : Type 0 where
    pub buffer : 1024 ≤ c.buffer_size
    pub read : 1000 ≤ c.read_timeout
    pub drain : 1000 ≤ c.drain_timeout
    pub connections : 1 ≤ c.max_connections
    pub cache : 1 ≤ c.cache_size
    pub rx_channel : 1 ≤ c.rx_channel_capacity
    pub header : 1024 ≤ c.max_header_size
    pub heartbeat : 1 ≤ c.heartbeat_interval
    pub availability : 1 ≤ c.availability_timeout
    pub response : c.max_header_size ≤ c.max_response_size

  check_bounds-IsRunnable :
      (a : Args net)
      → check_bounds net a ≡ ok tt
      → IsRunnable (bridge_config net a)
        × (parse_reliability a.reliability ≡ some (bridge_config net a).reliability)
  unfolding check_bounds bridge_config new_config
  check_bounds-IsRunnable a e = ground (arith, leb→le 1024 a.buffer_size)

  -- No two of the backends have the same scope.
  abbrev pub Distinct : List (BackendSpec net) → Type 0
  Distinct [] = Unit {0}
  Distinct (b ∷ bs) = All (λ b'. scope_of net b' ≢ scope_of net b) bs × Distinct bs

  check_scopes-Distinct :
      (seen : List (Text × Option Text)) (bs : List (BackendSpec net))
      → check_scopes net seen bs ≡ ok tt
      → All (λ b. All (λ y. scope_of net b ≢ y) seen) bs × Distinct bs
  unfolding check_scopes
  check_scopes-Distinct seen [] e = (tt, tt)
  check_scopes-Distinct seen (b ∷ bs) e =
      let (others, apart) = check_scopes-Distinct (scope_of net b ∷ seen) bs (ground arith) in
      (
        (
          seen_scope-false (scope_of net b) seen (ground arith),
          All-map (λ b'. All (λ y. scope_of net b' ≢ y) (scope_of net b ∷ seen))
              (λ b'. All (λ y. scope_of net b' ≢ y) seen) (λ b' h. h.1) bs others,
        ),
        (
          All-map (λ b'. All (λ y. scope_of net b' ≢ y) (scope_of net b ∷ seen))
              (λ b'. scope_of net b' ≢ scope_of net b) (λ b' h. h.0) bs others,
          apart,
        ),
      )

  -- Without TLS termination, no listener asks for it.
  abbrev pub TlsServed : Bool → List (ListenSpec net) → Type 0
  TlsServed true ls = Unit {0}
  TlsServed false ls = All (λ l. asks_terminate l.tls ≡ false) ls

  check_tls-TlsServed :
      (tls : Bool) (ls : List (ListenSpec net)) → check_tls net tls ls ≡ ok tt → TlsServed tls ls
  unfolding check_tls
  check_tls-TlsServed true ls e = tt
  check_tls-TlsServed false [] e = tt
  check_tls-TlsServed false (l ∷ ls) e = (ground arith, check_tls-TlsServed false ls (ground arith))

  log_options_cases :
      (a : Args net) {o : LogOptions}
      → log_options net a ≡ ok o
      → (sinks a.log_target ≡ ok o.targets) × (o.level ≡ a.log_level)
  unfolding log_options
  log_options_cases a {o} e = ground (
    arith,
    Result-cases (sinks a.log_target),
    Result-cases (parse_format a.log_format),
    Result-cases (parse_color a.log_color),
  )

  check_log-IsLoggable :
      (a : Args net)
      → check_log net a ≡ ok tt
      → (o : LogOptions) × (log_options net a ≡ ok o) × IsLoggable o
  unfolding check_log
  check_log-IsLoggable a e = elim (Result-cases (log_options net a)) [
    | inl (o, resolved) ↦
        let (targets, level) = log_options_cases a resolved in
        let (fit, some_sink) = sinks-IsLoggable a.log_target targets in
        (o, resolved, record { sinks_fit = fit; some_sink = some_sink; level = ground arith })
    | inr (why, refused) ↦ absurd (ground arith)
  ]

module _ (net : SocketText) (cm : CaseMap) where
  -- A command line that the bridge can be started with.
  pub record IsValidated (tls : Bool) (a : Args net) : Type 0 where
    pub listens : List (ListenSpec net)
    pub listens_parsed : listen_specs net a ≡ ok listens
    pub listens_fit : All (Listen.IsValid net) listens
    pub listens_served : TlsServed net tls listens
    pub backends : List (BackendSpec net)
    pub backends_parsed : backend_specs net cm a ≡ ok backends
    pub backends_fit : All (Backend.IsValid net cm) backends
    pub backends_apart : Distinct net backends
    pub some_spec : (is_nil a.listen && is_nil a.backend) ≡ false
    pub runnable : IsRunnable net (bridge_config net a)
    pub posture : parse_reliability a.reliability ≡ some (bridge_config net a).reliability
    pub logging : (o : LogOptions) × (log_options net a ≡ ok o) × IsLoggable o

  listens-IsValid :
      (a : Args net) {ls : List (ListenSpec net)}
      → listen_specs net a ≡ ok ls
      → All (Listen.IsValid net) ls
  unfolding listen_specs
  listens-IsValid a e =
      parse_all-All (Listen.IsValid net) (parse_listen net)
        (λ x y h. Listen.parse_listen-IsValid net x h) a.listen e

  backends-IsValid :
      (a : Args net) {bs : List (BackendSpec net)}
      → backend_specs net cm a ≡ ok bs
      → All (Backend.IsValid net cm) bs
  unfolding backend_specs
  backends-IsValid a e =
      parse_all-All (Backend.IsValid net cm) (parse_backend net cm)
        (λ x y h. Backend.parse_backend-IsValid net cm x h) a.backend e

  -- The steps of a validation that succeeds.
  validate_cases :
      (tls : Bool) (a : Args net)
      → validate net cm tls a ≡ ok tt
      → (ls : List (ListenSpec net)) × (bs : List (BackendSpec net)) × (listen_specs net a ≡ ok ls)
        × (backend_specs net cm a ≡ ok bs)
        × (check_scopes net [] bs ≡ ok tt)
        × ((is_nil a.listen && is_nil a.backend) ≡ false)
        × (check_tls net tls ls ≡ ok tt)
        × (check_bounds net a ≡ ok tt)
        × (check_log net a ≡ ok tt)
  unfolding validate
  validate_cases tls a e = elim (Result-cases (listen_specs net a)) [
    | inr (why, refused) ↦ absurd (ground arith)
    | inl (ls, listens) ↦ elim (Result-cases (backend_specs net cm a)) [
      | inr (why, refused) ↦ absurd (ground arith)
      | inl (bs, backends) ↦
          let behind = check_tls net tls ls >> (check_bounds net a >> check_log net a) in
          let some_spec = guard (not (is_nil a.listen && is_nil a.backend)) no_specs in
          let (scopes, e₁) =
            then-eq-ok (check_scopes net [] bs) (some_spec >> behind) (ground arith) in
          let (given, e₂) = then-eq-ok some_spec behind e₁ in
          let (served, e₃) =
            then-eq-ok (check_tls net tls ls) (check_bounds net a >> check_log net a) e₂ in
          let (bounds, logged) = then-eq-ok (check_bounds net a) (check_log net a) e₃ in
          (ls, bs, listens, backends, scopes, ground arith, served, bounds, logged)
    ]
  ]

  -- Arguments that pass the validation have listeners and backends that all parse to well-formed
  -- specs, at least one of them, no two backends of one scope, no listener that terminates TLS in
  -- a build without it, a run-time configuration within all its bounds and with the reliability
  -- mode that was asked for, and a logging surface of at least one well-formed sink with a known
  -- level.
  pub validate-IsValidated :
      (tls : Bool) (a : Args net) → validate net cm tls a ≡ ok tt → IsValidated tls a
  validate-IsValidated tls a e =
      let (ls, bs, listens, backends, scopes, given, served, bounds, logged) =
        validate_cases tls a e in
      record {
        listens = ls;
        listens_parsed = listens;
        listens_fit = listens-IsValid a listens;
        listens_served = check_tls-TlsServed net tls ls served;
        backends = bs;
        backends_parsed = backends;
        backends_fit = backends-IsValid a backends;
        backends_apart = (check_scopes-Distinct net [] bs scopes).1;
        some_spec = given;
        runnable = (check_bounds-IsRunnable net a bounds).0;
        posture = (check_bounds-IsRunnable net a bounds).1;
        logging = check_log-IsLoggable net a logged;
      }
