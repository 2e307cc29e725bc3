-- ===== src/Metrics/Tests.antt =====
-- Counters and label values at concrete runs.
use zenoh_bridge_tcp.Prelude.{◌+◌, ◌%◌, ◌^◌, ◌≡◌, refl, false, List, [], ◌∷◌, ◌++◌, some}
use zenoh_bridge_tcp.Text.{Text, codes}
use zenoh_bridge_tcp.Metrics.{
  Counters, ConnOutcome, ConnOp, conn_start, add_up, set_outcome, drop_guard, counters_of,
  metrics_run, escape_label,
}
use zenoh_bridge_tcp.Metrics.Tally.{starts, drops, ups, downs, outcomes, tally, metrics_tally}
use zenoh_bridge_tcp.Import.Head.{ReadEvent, chunk}
use zenoh_bridge_tcp.Metrics.Endpoint.{read_head, rescan_head, ends_head, read_head-rescan_head}
use zenoh_bridge_tcp.Metrics.Labels.{read_label, read_label-escape_label}

-- Two services; one connection of the first has ended.
abbrev connections : List (Text × ConnOp)
connections =
    (codes "web", conn_start)
    ∷ (codes "api", conn_start)
    ∷ (codes "web", add_up 10)
    ∷ (codes "web", set_outcome ConnOutcome.completed)
    ∷ (codes "web", drop_guard)
    ∷ []

abbrev web : Counters
web = counters_of (codes "web") (metrics_run [] connections)

metrics_tally_example :
    (web.total ≡ tally starts (codes "web") connections % 2 ^ 64)
    × ((web.active + tally drops (codes "web") connections) % 2 ^ 64
        ≡ tally starts (codes "web") connections % 2 ^ 64)
    × (web.bytes_up ≡ tally ups (codes "web") connections % 2 ^ 64)
    × (web.bytes_down ≡ tally downs (codes "web") connections % 2 ^ 64)
    × ((web.completed + web.reset + web.failed) % 2 ^ 64
        ≡ tally outcomes (codes "web") connections % 2 ^ 64)
metrics_tally_example = metrics_tally (codes "web") connections

read_label-escape_label_example :
    read_label false (escape_label (codes "a\"b\\n") ++ b'"' ∷ codes "} 1")
    ≡ some (codes "a\"b\\n", codes "} 1")
read_label-escape_label_example = read_label-escape_label (codes "a\"b\\n") (codes "} 1")

-- The end of a head in three reads.
abbrev head_reads : List ReadEvent
head_reads = chunk (71 ∷ 13 ∷ []) ∷ chunk (10 ∷ 13 ∷ []) ∷ chunk (10 ∷ []) ∷ []

head_found : read_head [] 0 head_reads ≡ some (some (71 ∷ 13 ∷ 10 ∷ 13 ∷ 10 ∷ []))
unfolding read_head ends_head
head_found = refl

read_head-rescan_head_example : read_head [] 0 head_reads ≡ rescan_head [] head_reads
read_head-rescan_head_example = read_head-rescan_head head_reads
