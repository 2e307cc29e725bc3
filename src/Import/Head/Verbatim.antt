-- ===== src/Import/Head/Verbatim.antt =====
-- A head reader keeps every byte that it took from the socket, and no more than the limit and a read.
use zenoh_bridge_tcp.Prelude.{
  ℕ, ◌+◌, ◌≤◌, ◌≡◌, refl, Bool, true, List, [], ◌∷◌, ◌++◌, Option, some, none, length, leb, Result,
  ok, err, append_assoc, append-nil, length-append, arith, all, Bool-cases, sym, subst, inl, inr,
  and-eq-true,
}
use zenoh_bridge_tcp.Export.Relay.{Bytes}
use zenoh_bridge_tcp.Import.Head.{
  ReadEvent, chunk, read_failed, deadline, ReadHeadOutcome, parsed, timeout, HeadError, after_step,
  read_until,
}

-- The bytes of the reads in front of the first turn that is none.
unfoldable pub received : List ReadEvent → Bytes
received [] = []
received (deadline ∷ es) = []
received (read_failed ∷ es) = []
received (chunk bytes ∷ es) = bytes ++ received es

-- A read is at most the buffer's size.
abbrev pub is_small : ReadEvent → Bool
is_small (chunk bytes) = leb (length bytes) 4096
is_small read_failed = true
is_small deadline = true

module _ {T E : Type 0} where
  -- The outcome's buffer is what was received up to it, and bounded; at a deadline it is all of it.
  unfoldable pub Replay : ℕ → Bytes → Option (Result (HeadError E) (ReadHeadOutcome T)) → Type 0
  Replay max total none = Unit
  Replay max total (some (err e)) = Unit
  Replay max total (some (ok (parsed value bytes))) =
      (unread : Bytes) × (total ≡ bytes ++ unread) × (length bytes ≤ max + 4096)
  Replay max total (some (ok (timeout bytes))) = (bytes ≡ total) × (length bytes ≤ max + 4096)

  after_step-Replay :
      {σ : Type 0} (step : σ → Bytes → σ × Result E (Option T)) (max : ℕ)
      (answer : Result E (Option T)) (buffer more : Bytes)
      (next : Option (Result (HeadError E) (ReadHeadOutcome T)))
      → length buffer ≤ max + 4096
      → (length buffer ≤ max → Replay max (buffer ++ more) next)
      → Replay max (buffer ++ more) (after_step step max answer buffer next)
  unfolding Replay
  after_step-Replay step max (err e) buffer more next b h = tt
  after_step-Replay step max (ok (some value)) buffer more next b h = (more, refl, b)
  after_step-Replay step max (ok none) buffer more next b h =
      elim (Bool-cases (leb max (length buffer))) [
        | inl e ↦ rw e tt
        | inr e ↦ rw e (h (ground arith))
      ]

  read-Replay :
      {σ : Type 0} (step : σ → Bytes → σ × Result E (Option T)) (max : ℕ) (s : σ) (buffer : Bytes)
      (es : List ReadEvent)
      → all is_small es ≡ true
      → length buffer ≤ max
      → Replay max (buffer ++ received es) (read_until step max s buffer es)
  unfolding read_until received
  read-Replay step max s buffer [] a b = unfold Replay in tt
  read-Replay step max s buffer (deadline ∷ es) a b =
      unfold Replay in (sym (append-nil buffer), omega arith)
  read-Replay step max s buffer (read_failed ∷ es) a b = unfold Replay in tt
  read-Replay step max s buffer (chunk [] ∷ es) a b = unfold Replay in tt
  read-Replay step max s buffer (chunk (x ∷ xs) ∷ es) a b =
      let (small, smalls) = and-eq-true (leb (length (x ∷ xs)) 4096) (all is_small es) a in
      subst (λ z. Replay max z (read_until step max s buffer (chunk (x ∷ xs) ∷ es)))
        (append_assoc buffer (x ∷ xs) (received es))
        (after_step-Replay step max (step s (x ∷ xs)).1 (buffer ++ x ∷ xs) (received es)
          (read_until step max (step s (x ∷ xs)).0 (buffer ++ x ∷ xs) es)
          (ground (arith, length-append buffer (x ∷ xs)))
          (λ small_yet.
            read-Replay step max (step s (x ∷ xs)).0 (buffer ++ x ∷ xs) es smalls small_yet))

-- Whatever the parser and the socket do, if each read is of at most 4096 bytes: where a head is
-- parsed, the buffer for replay is a prefix of the bytes received, at the deadline it is all of
-- them, and in both cases it holds at most the size limit and 4096 bytes.
pub read_until-Replay :
    {σ T E : Type 0} (step : σ → Bytes → σ × Result E (Option T)) (max : ℕ) (s : σ)
    (es : List ReadEvent)
    → all is_small es ≡ true
    → Replay max (received es) (read_until step max s [] es)
read_until-Replay step max s es a = read-Replay step max s [] es a (omega arith)
