-- ===== src/Kvstore/Server/Pipeline/InOrder.antt =====
-- The order in which the requests of a client are handled.
use raft_demo.Base.{
  ℕ, ◌+◌, ◌%◌, ◌^◌, ◌≡◌, refl, ap, sym, ◌∙◌, Bool, false, Option, none, some, List, [], ◌∷◌, ◌++◌,
  append_assoc, append-nil, Bytes, update, eqb, Bool-cases, Option-cases, List-cases, ◌⊎◌, inl, inr,
  if◌then◌else◌, arith,
}
use raft_demo.Kvstore.Sessions.{Request, read}
use raft_demo.Kvstore.Store.{Raft, refused, propose}
use raft_demo.Kvstore.Server.{Server, handle_request, after_proposal}
use raft_demo.Kvstore.Server.Pipeline.{
  Client, System, Step, reads, passes, handles, Reach, here, next,
}

-- the requests of one client among those that were handled
unfoldable pub of_client : ℕ → List (ℕ × Request) → List Request
of_client i [] = []
of_client i ((j, r) ∷ handled) =
    let later = of_client i handled in if eqb j i then r ∷ later else later

abbrev pub held : Option Request → List Request
held none = []
held (some r) = r ∷ []

-- the requests of a client that are still on their way
abbrev pub waiting : Client → List Request
waiting c = held c.passing ++ (held c.reading ++ c.unread)

of_client-append :
    (i : ℕ) (xs ys : List (ℕ × Request)) → of_client i (xs ++ ys) ≡ of_client i xs ++ of_client i ys
unfolding of_client
of_client-append i [] ys = refl
of_client-append i ((j, r) ∷ xs) ys = ground (arith, of_client-append i xs ys)

abbrev pub Kept : (ℕ → List Request) → System → Type 0
Kept sent s = (i : ℕ) → of_client i s.handled ++ waiting (s.client i) ≡ sent i

-- a step of one client, which handles some requests of its own
step_of :
    (sent : ℕ → List Request) (s : System) (i : ℕ) (c : Client) (done : List (ℕ × Request))
    → ((j : ℕ) → eqb i j ≡ false → of_client j done ≡ [])
    → waiting (s.client i) ≡ of_client i done ++ waiting c
    → Kept sent s
    → (j : ℕ) → of_client j (s.handled ++ done) ++ waiting (update s.client i c j) ≡ sent j
step_of sent s i c done others same kept j = elim (Bool-cases (eqb i j)) [
  | inl e ↦
      let mine : i ≡ j = ground arith in
      rw (e, ← mine, of_client-append)
        (append_assoc (of_client i s.handled) (of_client i done) (waiting c)
          ∙ ap (λ l. of_client i s.handled ++ l) (sym same)
          ∙ kept i)
  | inr apart ↦
      rw (apart, of_client-append, others j apart, append-nil (of_client j s.handled)) (kept j)
]

-- a step of one client which handles nothing
quiet_step_of :
    (sent : ℕ → List Request) (s : System) (i : ℕ) (c : Client)
    → waiting (s.client i) ≡ waiting c
    → Kept sent s
    → (j : ℕ) → of_client j s.handled ++ waiting (update s.client i c j) ≡ sent j
unfolding of_client
quiet_step_of sent s i c same kept j =
    ap (λ l. of_client j l ++ waiting (update s.client i c j)) (sym (append-nil s.handled))
    ∙ step_of sent s i c [] (λ k e. refl) same kept j

Step-Kept : (sent : ℕ → List Request) (s t : System) → Step s t → Kept sent s → Kept sent t
unfolding of_client
Step-Kept sent s _ (reads i r rest unread free) kept =
    quiet_step_of sent s i (record (s.client i) { unread = rest; reading = some r })
      (ground (arith, unread, free)) kept
Step-Kept sent s _ (passes i r reading free) kept =
    quiet_step_of sent s i (record (s.client i) { reading = none; passing = some r })
      (ground (arith, reading, free)) kept
Step-Kept sent s _ (handles i r dials raft svr passing ran) kept =
    step_of sent s i (record (s.client i) { passing = none }) ((i, r) ∷ [])
      (λ k e. ground (arith, e)) (ground (arith, passing)) kept

Reach-Kept :
    (sent : ℕ → List Request) (server : Server) (s : System) → Reach sent server s → Kept sent s
unfolding of_client
Reach-Kept sent server _ here = λ i. refl
Reach-Kept sent server _ (next {s} {t} reached step) =
    Step-Kept sent s t step (Reach-Kept sent server s reached)

-- Raft at a replica that does not lead
abbrev following : Raft
following = record { is_leader = false; apply = λ msg. refused }

nowhere : Bytes → Bool
nowhere address = false

handle_request-following :
    (svr : Server) (r : Request)
    → handle_request nowhere following svr r ≡ some (record svr { req = (svr.req + 1) % 2 ^ 64 })
unfolding handle_request after_proposal propose
handle_request-following svr r = refl

-- a client with requests on their way has a goroutine that is not blocked
moves : (s : System) (i : ℕ) → (waiting (s.client i) ≡ []) ⊎ ((t : System) × Step s t)
moves s i = elim (Option-cases (s.client i).passing) [
  | inr (r, e) ↦ inr (_, handles i r nowhere following _ e (handle_request-following s.server r))
  | inl idle ↦ elim (Option-cases (s.client i).reading) [
    | inr (r, e) ↦ inr (_, passes i r e idle)
    | inl free ↦ elim (List-cases (s.client i).unread) [
      | inl done ↦ inl (ground (arith, idle, free, done))
      | inr (r, rest, e) ↦ inr (_, reads i r rest e free)
    ]
  ]
]

-- Take clients that each send a stream over a connection of their own. In every interleaving of the
-- goroutines of a server that goes on, the requests of a client that were handled are the first of
-- those in its stream, in their order and once each: with the ones that are still on their way they
-- are what Read makes of the stream. And where any are on their way, some goroutine can go on.
pub of_client-Reach :
    (addresses streams : ℕ → Bytes) (server : Server) (s : System) (i : ℕ)
    → Reach (λ j. read (addresses j) (streams j)) server s
    → (of_client i s.handled ++ waiting (s.client i) ≡ read (addresses i) (streams i))
      × ((waiting (s.client i) ≡ []) ⊎ ((t : System) × Step s t))
of_client-Reach addresses streams server s i reached =
    (Reach-Kept (λ j. read (addresses j) (streams j)) server s reached i, moves s i)
