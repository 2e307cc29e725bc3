-- ===== src/Export/Clients/Tracking.antt =====
-- Which clients are tracked, and that no task frees another one's entry.
use zenoh_bridge_tcp.Prelude.{
  ℕ, ◌<◌, ◌≡◌, ◌≢◌, inl, inr, refl, ap, ◌∙◌, Bool, true, false, List, [], ◌∷◌, Option, some, none,
  not, ◌||◌, ◌&&◌, if◌then◌else◌, Bool-cases, Option-cases, arith, map,
}
use zenoh_bridge_tcp.Text.{Text, text_eq, text_eq_iff, is_empty}
use zenoh_bridge_tcp.Election.{SampleKind, Sample, put, delete, last_segment}
use zenoh_bridge_tcp.Export.Clients.{
  Clients, lookup, remove_id, dispatch_client_connect, handle_client_disconnect, same_channel,
  remove_if_current, on_kind, on_sample, on_reply, drain_all_clients, ClientOp, reply, sample,
  task_ends, drain, client_step, client_steps,
}

abbrev is_some : Option ℕ → Bool
is_some none = false
is_some (some _) = true

-- A client is tracked.
unfoldable pub tracks : Clients → Text → Bool
tracks c id = is_some (lookup id c.tracked)

-- The id is removed, and no other.
pub lookup-remove_id :
    (id a : Text) (m : List (Text × ℕ))
    → lookup a (remove_id id m) ≡ (if text_eq a id then none else lookup a m)
unfolding lookup remove_id
lookup-remove_id id a [] = ground arith
lookup-remove_id id a ((i, ch) ∷ m) =
    ground (arith, lookup-remove_id id a m, text_eq_iff id i, text_eq_iff a id, text_eq_iff a i)

tracks-dispatch_client_connect :
    (c : Clients) (id a : Text)
    → tracks (dispatch_client_connect c id) a ≡ (text_eq a id || tracks c a)
unfolding tracks dispatch_client_connect lookup
tracks-dispatch_client_connect c id a = elim (Option-cases (lookup id c.tracked)) [
  | inl e ↦ ground arith
  | inr (ch, e) ↦ ground (arith, text_eq_iff a id)
]

tracks-handle_client_disconnect :
    (c : Clients) (id a : Text)
    → tracks (handle_client_disconnect c id) a ≡ (not (text_eq a id) && tracks c a)
unfolding tracks handle_client_disconnect
tracks-handle_client_disconnect c id a = elim (Option-cases (lookup id c.tracked)) [
  | inl e ↦ ground (arith, text_eq_iff a id)
  | inr (ch, e) ↦ ground (arith, lookup-remove_id id a c.tracked)
]

abbrev pub is_put : SampleKind → Bool
is_put put = true
is_put delete = false

-- Whether a client's last token in the samples was a put; what it was before them where they have
-- none.
unfoldable pub live : Text → Bool → List Sample → Bool
live a b [] = b
live a b (s ∷ ss) = live a (if text_eq a (last_segment s.key) then is_put s.kind else b) ss

tracks-on_kind :
    (k : SampleKind) (c : Clients) (id a : Text)
    → tracks (on_kind k c id) a ≡ (if text_eq a id then is_put k else tracks c a)
tracks-on_kind put c id a = ground (arith, tracks-dispatch_client_connect c id a)
tracks-on_kind delete c id a = ground (arith, tracks-handle_client_disconnect c id a)

tracks-on_sample :
    (c : Clients) (s : Sample) (a : Text)
    → is_empty a ≡ false
    → tracks (on_sample c s) a
      ≡ (if text_eq a (last_segment s.key) then is_put s.kind else tracks c a)
unfolding on_sample
tracks-on_sample c s a n = elim (Bool-cases (is_empty (last_segment s.key))) [
  | inl e ↦ ground (arith, text_eq_iff a (last_segment s.key))
  | inr e ↦ rw e (tracks-on_kind s.kind c (last_segment s.key) a)
]

-- After any sequence of liveliness samples, a client with a non-empty id is tracked exactly when
-- its last sample was a put, or, if it had none, when it was tracked before; repeated puts and
-- deletes do not matter.
pub tracks_last :
    (c : Clients) (ss : List Sample) (a : Text)
    → is_empty a ≡ false
    → tracks (client_steps c (map sample ss)) a ≡ live a (tracks c a) ss
unfolding client_steps client_step live
tracks_last c [] a n = refl
tracks_last c (s ∷ ss) a n =
    tracks_last (on_sample c s) ss a n ∙ ap (λ b. live a b ss) (tracks-on_sample c s a n)

-- A channel that is no longer, and will not again be, the one of a client.
Gone : Text → ℕ → Clients → Type 0
Gone id ch c = (lookup id c.tracked ≢ some ch) × (ch < c.next)

dispatch-Gone :
    (c : Clients) (a id : Text) (ch : ℕ) → Gone id ch c → Gone id ch (dispatch_client_connect c a)
unfolding Gone dispatch_client_connect lookup
dispatch-Gone c a id ch h = elim (Option-cases (lookup a c.tracked)) [
  | inl e ↦ rw e ((λ z. ground arith), omega arith)
  | inr (x, e) ↦ rw e h
]

remove_id-Gone :
    (id a : Text) (ch : ℕ) (m : List (Text × ℕ))
    → lookup id m ≢ some ch
    → lookup id (remove_id a m) ≢ some ch
remove_id-Gone id a ch m h = λ z. ground (arith, lookup-remove_id a id m)

cancel-Gone :
    (c : Clients) (a id : Text) (ch : ℕ) → Gone id ch c → Gone id ch (handle_client_disconnect c a)
unfolding Gone handle_client_disconnect
cancel-Gone c a id ch h = elim (Option-cases (lookup a c.tracked)) [
  | inl e ↦ rw e h
  | inr (x, e) ↦ rw e (remove_id-Gone id a ch c.tracked h.0, h.1)
]

on_sample-Gone :
    (k : SampleKind) (c : Clients) (a id : Text) (ch : ℕ)
    → Gone id ch c
    → Gone id ch (if is_empty a then c else on_kind k c a)
on_sample-Gone put c a id ch h = ground (arith, dispatch-Gone c a id ch h)
on_sample-Gone delete c a id ch h = ground (arith, cancel-Gone c a id ch h)

remove_if_current-Gone :
    (c : Clients) (a id : Text) (own ch : ℕ)
    → Gone id ch c
    → Gone id ch (remove_if_current c a own).0
unfolding Gone remove_if_current
remove_if_current-Gone c a id own ch h = elim (Bool-cases (same_channel (lookup a c.tracked) own)) [
  | inl e ↦ rw e (remove_id-Gone id a ch c.tracked h.0, h.1)
  | inr e ↦ rw e h
]

step-Gone :
    (c : Clients) (op : ClientOp) (id : Text) (ch : ℕ)
    → Gone id ch c
    → Gone id ch (client_step c op)
unfolding client_step on_sample on_reply
step-Gone c (reply key) id ch h = on_sample-Gone put c (last_segment key) id ch h
step-Gone c (sample s) id ch h = on_sample-Gone s.kind c (last_segment s.key) id ch h
step-Gone c (task_ends a own) id ch h = remove_if_current-Gone c a id own ch h
step-Gone c drain id ch h = unfold Gone drain_all_clients lookup in ((λ z. cc), h.1)

steps-Gone :
    (c : Clients) (ops : List ClientOp) (id : Text) (ch : ℕ)
    → Gone id ch c
    → Gone id ch (client_steps c ops)
unfolding client_steps
steps-Gone c [] id ch h = h
steps-Gone c (op ∷ ops) id ch h = steps-Gone (client_step c op) ops id ch (step-Gone c op id ch h)

same_channel-some : (o : Option ℕ) (own : ℕ) → o ≢ some own → same_channel o own ≡ false
same_channel-some none own h = refl
same_channel-some (some ch) own h = ground arith

-- A task whose channel was allotted, and is not the one its client is tracked under, frees
-- nothing: whatever happens to the map before its cleanup, the cleanup leaves it as it is.
pub stale_cleanup :
    (c : Clients) (ops : List ClientOp) (id : Text) (own : ℕ)
    → lookup id c.tracked ≢ some own
    → own < c.next
    → remove_if_current (client_steps c ops) id own ≡ (client_steps c ops, false)
unfolding remove_if_current Gone
stale_cleanup c ops id own h b =
    rw
      (same_channel-some (lookup id (client_steps c ops).tracked) own
        (steps-Gone c ops id own (h, b)).0)
      refl
