-- ===== src/Metrics.antt =====
-- src/metrics.rs: the per-service counters, the guard of a connection, and the lines of the Prometheus
-- text. The registry, a `HashMap` behind a lock, is a list of pairs; counters are 64 bits wide.
pub mod Tally
pub mod Labels
pub mod Endpoint
mod Tests
use zenoh_bridge_tcp.Prelude.{
  ℕ, ◌+◌, ◌-◌, ◌%◌, ◌^◌, Bool, true, false, List, [], ◌∷◌, ◌++◌, Option, some, none, ◌==◌,
  if◌then◌else◌,
}
use zenoh_bridge_tcp.Text.{Text, codes, text_eq}

pub record Counters : Type 0 where
  pub active : ℕ
  pub total : ℕ
  pub bytes_up : ℕ
  pub bytes_down : ℕ
  pub completed : ℕ
  pub reset : ℕ
  pub failed : ℕ

abbrev pub no_counts : Counters
no_counts = record {
  active = 0;
  total = 0;
  bytes_up = 0;
  bytes_down = 0;
  completed = 0;
  reset = 0;
  failed = 0;
}

pub data ConnOutcome : Type 0 where
  completed reset failed : ConnOutcome

-- `fetch_add` and `fetch_sub` by one.
abbrev pub fetch_add : ℕ → ℕ → ℕ
fetch_add counter n = (counter + n) % 2 ^ 64

abbrev pub fetch_sub_1 : ℕ → ℕ
fetch_sub_1 counter = (counter + (2 ^ 64 - 1)) % 2 ^ 64

-- What a connection does to its service's counters: `conn_start`, the byte counters, the outcome, and
-- the drop of its guard.
pub data ConnOp : Type 0 where
  conn_start : ConnOp
  add_up add_down : ℕ → ConnOp
  set_outcome : ConnOutcome → ConnOp
  drop_guard : ConnOp

unfoldable pub count_outcome : ConnOutcome → Counters → Counters
count_outcome ConnOutcome.completed c = record c { completed = fetch_add c.completed 1 }
count_outcome ConnOutcome.reset c = record c { reset = fetch_add c.reset 1 }
count_outcome ConnOutcome.failed c = record c { failed = fetch_add c.failed 1 }

unfoldable pub count : ConnOp → Counters → Counters
count conn_start c = record c { active = fetch_add c.active 1; total = fetch_add c.total 1 }
count (add_up n) c = record c { bytes_up = fetch_add c.bytes_up n }
count (add_down n) c = record c { bytes_down = fetch_add c.bytes_down n }
count (set_outcome o) c = count_outcome o c
count drop_guard c = record c { active = fetch_sub_1 c.active }

-- `Metrics::service`, and the change of the counters that it returns.
unfoldable pub counters_of : Text → List (Text × Counters) → Counters
counters_of name [] = no_counts
counters_of name ((n, c) ∷ m) = if text_eq name n then c else counters_of name m

unfoldable pub with_service : Text → ConnOp → List (Text × Counters) → List (Text × Counters)
with_service name op [] = (name, count op no_counts) ∷ []
with_service name op ((n, c) ∷ m) =
    let rest = with_service name op m in
    if text_eq name n then (n, count op c) ∷ m else (n, c) ∷ rest

-- The connections of all services at once.
unfoldable pub metrics_run : List (Text × Counters) → List (Text × ConnOp) → List (Text × Counters)
metrics_run m [] = m
metrics_run m ((name, op) ∷ ops) = metrics_run (with_service name op m) ops

-- `str::replace` of one character.
unfoldable pub replace : ℕ → Text → Text → Text
replace c by [] = []
replace c by (x ∷ s) = (if x == c then by else x ∷ []) ++ replace c by s

unfoldable pub escape_label : Text → Text
escape_label v =
    replace 0xA (codes "\\n") (replace b'"' (codes "\\\"") (replace b'\\' (codes "\\\\") v))

-- One line; the value is the text of a number.
unfoldable pub metric_line : Text → Text → Option (Text × Text) → Text → Text
metric_line name service (some (k, v)) value =
    name
    ++ (codes "{service=\""
        ++ (escape_label service
            ++ (b'"'
                ∷ b','
                ∷ (k
                    ++ (codes "=\""
                        ++ (escape_label v ++ (codes "\"} " ++ (value ++ 0xA ∷ []))))))))
metric_line name service none value =
    name
    ++ (codes "{service=\"" ++ (escape_label service ++ (b'"' ∷ b'}' ∷ b' ' ∷ (value ++ 0xA ∷ []))))
