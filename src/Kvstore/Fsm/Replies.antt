-- ===== src/Kvstore/Fsm/Replies.antt =====
-- What Apply of kvstore/fsm.go returns for a GET.
use raft_demo.Base.{
  ap, sym, ◌∙◌, ◌++◌, ◌≡◌, Option, none, some, List, [], ◌∷◌, Bytes, arith, get_or, if◌then◌else◌,
  ◌==◌,
}
use raft_demo.Base.Dict
use raft_demo.Base.Dict.{get-put, get-empty}
use raft_demo.Pb.{get, set, Command, Log, Codec}
use raft_demo.Recovery.State.{install_command, install_commands}
use raft_demo.Recovery.State.Install.{or_else, or_else_assoc, get-install_commands}
use raft_demo.Kvstore.Fsm.{Store, response, respond, apply_get, dispatch, apply, run}
use raft_demo.Kvstore.Fsm.Logged.{m-log_command, logged, map-run}

-- what a command stores under a key
abbrev pub stores : Bytes → Command → Option Bytes
stores k c = elim c.op [ set ↦ (if c.key == k then some c.value else none) | _ ↦ none ]

-- the value of the last SET of a key
unfoldable pub last_set : Bytes → List Command → Option Bytes
last_set k [] = none
last_set k (c ∷ cs) = or_else (last_set k cs) (stores k c)

pub install_commands-last_set :
    (k : Bytes) (cs : List Command) → Dict.get (install_commands Dict.empty cs) k ≡ last_set k cs
unfolding install_commands install_command last_set
install_commands-last_set k [] = get-empty {V = Bytes} k
install_commands-last_set k (c ∷ cs) = ground (
  arith,
  install_commands-last_set k cs,
  get-install_commands (install_command Dict.empty c) cs k,
  get-put Dict.empty c.key k c.value,
  get-empty {V = Bytes} k,
)

pub last_set-append :
    (k : Bytes) (xs ys : List Command)
    → last_set k (xs ++ ys) ≡ or_else (last_set k ys) (last_set k xs)
unfolding last_set
last_set-append k [] ys = ground arith
last_set-append k (c ∷ xs) ys =
    ap (λ o. or_else o (stores k c)) (last_set-append k xs ys)
    ∙ sym (or_else_assoc (last_set k ys) (last_set k xs) (stores k c))

module _ (pb : Codec) where
  -- The value of a key behind some entries: that of the last SET of it among them, or the one before.
  pub get-run :
      (f : Store) (ls : List Log) (k : Bytes)
      → Dict.get (run pb f ls).m k ≡ or_else (last_set k (logged pb ls)) (Dict.get f.m k)
  get-run f ls k =
      rw (map-run pb f ls, ← install_commands-last_set k (logged pb ls))
        (get-install_commands f.m (logged pb ls) k)

  -- After any committed entries, an entry that holds a GET answers with the IP of its command and
  -- the value that the last SET of its key among them stored; where there is none, with the value
  -- from before the entries, or the empty text. It leaves the map as it is.
  pub apply-run-get :
      (f : Store) (ls : List Log) (l : Log) (c : Command)
      → pb.unmarshal l.bytes ≡ some c
      → c.op ≡ get
      → ((apply pb (run pb f ls) l).1
          ≡ response (
              respond c.ip
                (get_or (or_else (last_set c.key (logged pb ls)) (Dict.get f.m c.key)) [])))
        × ((apply pb (run pb f ls) l).0.m ≡ (run pb f ls).m)
  unfolding apply dispatch apply_get
  apply-run-get f ls l c read e =
      ground (arith, get-run f ls c.key, m-log_command pb (run pb f ls) l.index c)
