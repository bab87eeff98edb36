-- ===== src/Kvstore/Store/Proposals.antt =====
-- The datagram that answers a proposal.
use raft_demo.Base.{
  ◌≡◌, refl, ap, ◌∙◌, true, List, [], ◌∷◌, ◌++◌, Bytes, codes, dash, newline, Lacks, arith, eqb,
  if◌then◌else◌,
}
use raft_demo.Go.Strings.{split, join}
use raft_demo.Go.Strings.Laws.{split-append}
use raft_demo.Kvstore.Fsm.{response, respond}
use raft_demo.Kvstore.Store.{applied, Raft, replied, reply_to, answer, propose}

-- the bytes in front of the first dash
unfoldable pub before_dash : Bytes → Bytes
before_dash [] = []
before_dash (b ∷ s) = if eqb b dash then [] else b ∷ before_dash s

pub split-before_dash : (s : Bytes) → (ps : List Bytes) × (split s dash ≡ before_dash s ∷ ps)
unfolding split before_dash
split-before_dash [] = ([], refl)
split-before_dash (b ∷ s) =
    let (ps, e) = split-before_dash s in (if eqb b dash then split s dash else ps, ground arith)

before_dash-Lacks : (s : Bytes) → Lacks dash s → before_dash s ≡ s
unfolding before_dash
before_dash-Lacks [] h = refl
before_dash-Lacks (b ∷ s) (d, h) = ground (arith, before_dash-Lacks s h)

-- The leader answers a response of the state machine with a datagram to the port that the response
-- begins with, if the port has no dash; of the reply behind the port it sends the bytes in front of
-- the first dash.
pub propose-respond :
    (raft : Raft) (msg client_ip port reply : Bytes)
    → raft.is_leader ≡ true
    → raft.apply msg ≡ applied (response (respond port reply))
    → Lacks dash port
    → propose raft msg client_ip
      ≡ replied
          (client_ip ++ (codes ":" ++ port))
          (codes "OK: " ++ (before_dash reply ++ newline ∷ []))
unfolding propose answer reply_to join
propose-respond raft msg client_ip port reply leads e h =
    let (ps, e') = split-before_dash reply in
    let parts : split (respond port reply) dash ≡ port ∷ before_dash reply ∷ ps =
      split-append port reply dash h ∙ ap (λ (l : List Bytes). port ∷ l) e' in
    rw (leads, e, answer, parts)

-- A reply without a dash is sent whole.
pub propose-respond_whole :
    (raft : Raft) (msg client_ip port reply : Bytes)
    → raft.is_leader ≡ true
    → raft.apply msg ≡ applied (response (respond port reply))
    → Lacks dash port
    → Lacks dash reply
    → propose raft msg client_ip
      ≡ replied (client_ip ++ (codes ":" ++ port)) (codes "OK: " ++ (reply ++ newline ∷ []))
propose-respond_whole raft msg client_ip port reply leads e h k =
    propose-respond raft msg client_ip port reply leads e h ∙ rw (before_dash-Lacks reply k)
