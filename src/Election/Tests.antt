-- ===== src/Election/Tests.antt =====
-- Elections at concrete claims.
use zenoh_bridge_tcp.Prelude.{◌≡◌, ◌↔◌, refl, true, false, List, [], ◌∷◌, ◌++◌, arith, some}
use zenoh_bridge_tcp.Text.{Text, codes}
use zenoh_bridge_tcp.Election.{
  current_active, text_ltb, remove, elect, claim_name, padded, Claim, Sample, put, delete,
  last_segment, apply, drain_pending, is_active, received, shutdown_requested, active, insert,
  wait_until_active,
}
use zenoh_bridge_tcp.Election.ClaimSet.{contains, IsSorted}
use zenoh_bridge_tcp.Election.Winner.{elect_iff, one_active}
use zenoh_bridge_tcp.Election.Waiting.{EndsWell, wait-EndsWell, wait_takes_over}
use zenoh_bridge_tcp.Election.Padding.{claim_name-ltb, oldest_wins}

padded_example : padded 20 1754800000500 ≡ codes "00000001754800000500"
unfolding padded
padded_example = refl

abbrev older : Text
older = codes "00000001754800000000-zidB"

abbrev newer : Text
newer = codes "00000001754800000500-zidA"

abbrev standby : Claim
standby = record { own = newer; claims = older ∷ newer ∷ [] }

abbrev serving : Claim
serving = record { own = older; claims = older ∷ newer ∷ [] }

abbrev withdrawn : Sample
withdrawn = record { key = codes "svc/exporter-claim/" ++ older; kind = delete }

takes_over : (is_active standby (withdrawn ∷ [])).1 ≡ true
unfolding is_active drain_pending apply last_segment remove elect
takes_over = refl

elect_iff_example :
    (elect (older ∷ newer ∷ []) older ≡ true)
    ↔ ((x : Text) → contains x (older ∷ newer ∷ []) ≡ true → text_ltb x older ≡ false)
elect_iff_example = elect_iff (older ∷ newer ∷ []) older (refl, (tt, tt)) refl

one_active_example : older ≡ older
unfolding elect
one_active_example =
    one_active (older ∷ newer ∷ []) (older ∷ newer ∷ []) older older (refl, (tt, tt))
      (refl, (tt, tt)) (λ x. refl) refl refl

abbrev appeared : Sample
appeared = record { key = codes "svc/exporter-claim/0000-zid"; kind = put }

wait-EndsWell_example :
    EndsWell
      (received withdrawn [] ∷ [])
      (wait_until_active standby [] (received withdrawn [] ∷ []))
wait-EndsWell_example = wait-EndsWell standby [] (received withdrawn [] ∷ [])

-- The own claim is seen again, the older one is withdrawn, and then a shutdown comes.
abbrev newer_first : Sample
newer_first = record { key = codes "svc/exporter-claim/" ++ newer; kind = put }

wait_takes_over_example :
    (wait_until_active standby []
      ((received newer_first [] ∷ received withdrawn [] ∷ []) ++ shutdown_requested ∷ [])).1
    ≡ some active
unfolding drain_pending apply last_segment remove insert elect
wait_takes_over_example =
    wait_takes_over standby [] (received newer_first [] ∷ received withdrawn [] ∷ [])
      (shutdown_requested ∷ []) refl refl

abbrev both : List Text
both = claim_name 9 (codes "z") (codes "a") ∷ claim_name 10 (codes "z") (codes "b") ∷ []

both-IsSorted : IsSorted both
both-IsSorted = (
  claim_name-ltb 9 10 (codes "z") (codes "z") (codes "a") (codes "b") (omega arith) (omega arith),
  (tt, tt),
)

oldest_wins_example : elect both (claim_name 10 (codes "z") (codes "b")) ≡ false
unfolding claim_name padded
oldest_wins_example =
    oldest_wins both 9 10 (codes "z") (codes "z") (codes "a") (codes "b") both-IsSorted refl
      (omega arith) (omega arith)

seen_active : (current_active standby (withdrawn ∷ [])).1 ≡ some newer
unfolding current_active drain_pending apply last_segment remove
seen_active = refl
