-- ===== src/Metrics/Endpoint.antt =====
-- src/metrics.rs, the endpoint: the reading of a request's head, and the routing of its path.
use zenoh_bridge_tcp.Prelude.{
  ℕ, suc, ◌-◌, ◌≡◌, refl, Bool, true, false, ◌&&◌, ◌||◌, List, [], ◌∷◌, ◌++◌, Option, some, none,
  length, ltb, drop, ◌==◌, if◌then◌else◌, arith,
}
use zenoh_bridge_tcp.Export.Relay.{Bytes}
use zenoh_bridge_tcp.Import.Head.{ReadEvent, chunk, read_failed, deadline}

-- A window that is `\r\n\r\n`.
abbrev pub is_blank_line : ℕ → ℕ → ℕ → ℕ → Bool
is_blank_line a b c d = a == 13 && (b == 10 && (c == 13 && d == 10))

-- `windows(4).any`.
unfoldable pub ends_head : Bytes → Bool
ends_head (a ∷ b ∷ c ∷ d ∷ bs) = is_blank_line a b c d || ends_head (b ∷ c ∷ d ∷ bs)
ends_head _ = false

-- The loop over the reads: no result while it still reads, and nothing of a client that is dropped.
unfoldable pub read_head : Bytes → ℕ → List ReadEvent → Option (Option Bytes)
read_head got scanned [] = none
read_head got scanned (deadline ∷ es) = some none
read_head got scanned (read_failed ∷ es) = some none
read_head got scanned (chunk [] ∷ es) = some (some got)
read_head got scanned (chunk (b ∷ bs) ∷ es) =
    let all_got = got ++ b ∷ bs in
    let rest = read_head all_got (length all_got) es in
    if ends_head (drop (scanned - 3) all_got) || ltb 8192 (length all_got)
    then some (some all_got)
    else rest

-- The same loop, looking through all that was read each time.
abbrev pub rescan_head : Bytes → List ReadEvent → Option (Option Bytes)
rescan_head got [] = none
rescan_head got (deadline ∷ es) = some none
rescan_head got (read_failed ∷ es) = some none
rescan_head got (chunk [] ∷ es) = some (some got)
rescan_head got (chunk (b ∷ bs) ∷ es) =
    let all_got = got ++ b ∷ bs in
    let rest = rescan_head all_got es in
    if ends_head all_got || ltb 8192 (length all_got) then some (some all_got) else rest

or_false : (a : Bool) {b : Bool} → (a || b) ≡ false → (a ≡ false) × (b ≡ false)
or_false true h = cc
or_false false h = (refl, h)

-- Where there was no end, one that is there now is not further back than the overlap.
ends_head-drop :
    (got more : Bytes)
    → ends_head got ≡ false
    → ends_head (drop (length got - 3) (got ++ more)) ≡ ends_head (got ++ more)
unfolding ends_head
ends_head-drop [] more h = refl
ends_head-drop (a ∷ []) more h = refl
ends_head-drop (a ∷ b ∷ []) more h = refl
ends_head-drop (a ∷ b ∷ c ∷ []) more h = refl
ends_head-drop (a ∷ b ∷ c ∷ d ∷ got) more h =
    let (here, behind) = or_false (is_blank_line a b c d) h in
    let shift : length (a ∷ b ∷ c ∷ d ∷ got) - 3 ≡ suc (length (b ∷ c ∷ d ∷ got) - 3) =
      omega arith in
    rw shift (rw here (ends_head-drop (b ∷ c ∷ d ∷ got) more behind))

-- The branches behind a failed test agree.
same_else {ℓ} :
    {A : Type ℓ} (a b : Bool) (x : A) {y z : A}
    → (a ≡ false → y ≡ z)
    → (if a || b then x else y) ≡ (if a || b then x else z)
same_else true b x h = refl
same_else false b x h = rw (h refl) refl

-- The loop has found no end so far.
read_head-rescan :
    (got : Bytes) (es : List ReadEvent)
    → ends_head got ≡ false
    → read_head got (length got) es ≡ rescan_head got es
unfolding read_head
read_head-rescan got [] h = refl
read_head-rescan got (deadline ∷ es) h = refl
read_head-rescan got (read_failed ∷ es) h = refl
read_head-rescan got (chunk [] ∷ es) h = refl
read_head-rescan got (chunk (b ∷ bs) ∷ es) h =
    let all_got = got ++ b ∷ bs in
    rw (ends_head-drop got (b ∷ bs) h) (
      same_else (ends_head all_got) (ltb 8192 (length all_got)) _
        (λ e. read_head-rescan all_got es e))

-- The endpoint's loop, which looks only through what is new and an overlap of three bytes for the
-- end of a head, reads the same head as one that looks through everything each time, however the
-- request is cut into reads.
pub read_head-rescan_head : (es : List ReadEvent) → read_head [] 0 es ≡ rescan_head [] es
unfolding ends_head
read_head-rescan_head es = read_head-rescan [] es refl
