-- ===== src/Client/Commands/Unreachable.antt =====
-- SendUDP of kvstore/server.go, for a client whose port no network takes.
use raft_demo.Base.{
  ℕ, ◌≡◌, ap, ◌∙◌, Bool, false, none, some, List, [], ◌∷◌, ◌++◌, Bytes, codes, newline, dash, eqb,
  Bool-cases, inl, inr, arith,
}
use raft_demo.Go.Strings.{split, trim_suffix, join}
use raft_demo.Pb.{Command, Codec}
use raft_demo.Kvstore.Fsm.{Store, Outcome, apply, dispatch, respond, response, apply_get, apply_set}
use raft_demo.Kvstore.Sessions.{Request}
use raft_demo.Kvstore.Store.{applied, propose, answer, reply_to}
use raft_demo.Kvstore.Store.Proposals.{before_dash, split-before_dash}
use raft_demo.Kvstore.Server.{Server, count_request, handle_request, after_proposal, send_udp}
use raft_demo.Client.Commands.Answered.{leader_of}

split-two :
    (ip reply : Bytes)
    → (q : Bytes) × (ps : List Bytes) × (split (ip ++ dash ∷ reply) dash ≡ before_dash ip ∷ q ∷ ps)
unfolding split before_dash
split-two [] reply =
    let (ps, e) = split-before_dash reply in (before_dash reply, ps, ground (arith, e))
split-two (c ∷ ip) reply =
    let (q, ps, e) = split-two ip reply in
    elim (Bool-cases (eqb c dash)) [
      | inl ends ↦ (before_dash ip, q ∷ ps, ground (arith, e, ends))
      | inr inside ↦ (q, ps, ground (arith, e, inside))
    ]

-- What the state machine answers, with any reply, is a crash where the port cannot be dialled.
answer-unreachable :
    (dials : Bytes → Bool) (svr : Server) (client_ip ip reply : Bytes)
    → dials (client_ip ++ (codes ":" ++ before_dash ip)) ≡ false
    → after_proposal dials svr (answer client_ip (applied (response (respond ip reply)))) ≡ none
unfolding after_proposal send_udp answer reply_to join
answer-unreachable dials svr client_ip ip reply h =
    let (q, ps, e) = split-two ip reply in rw (answer, e, reply_to, after_proposal, send_udp, h)

outcome-unreachable :
    (dials : Bytes → Bool) (svr : Server) (client_ip : Bytes) (f : Store) (c : Command)
    → dials (client_ip ++ (codes ":" ++ before_dash c.ip)) ≡ false
    → after_proposal dials svr (answer client_ip (applied (dispatch f c).1)) ≡ none
unfolding dispatch apply_set after_proposal answer
outcome-unreachable dials svr client_ip f c h = ground (
  arith,
  answer-unreachable dials svr client_ip c.ip [] h,
  answer-unreachable dials svr client_ip c.ip (apply_get f c.key) h,
)

-- Take a leader that commits what it proposes, and a request that holds any command, whose IP names
-- no port that the network takes at the client's host. The leader's process ends at the request.
pub handle_request-unreachable :
    (pb : Codec) (f : Store) (index : ℕ) (svr : Server) (r : Request) (c : Command)
    (dials : Bytes → Bool)
    → pb.unmarshal (trim_suffix r.command (newline ∷ [])) ≡ some c
    → dials (r.ip ++ (codes ":" ++ before_dash c.ip)) ≡ false
    → handle_request dials (leader_of pb f index) svr r ≡ none
unfolding handle_request propose apply dispatch
handle_request-unreachable pb f index svr r c dials read h =
    let msg = trim_suffix r.command (newline ∷ []) in
    let outcome : (apply pb f (record { index = index; bytes = msg })).1 ≡ (dispatch f c).1 =
      rw (apply, read) in
    ap (λ (o : Outcome). count_request (after_proposal dials svr (answer r.ip (applied o)))) outcome
    ∙ ap count_request (outcome-unreachable dials svr r.ip f c h)
