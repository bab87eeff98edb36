-- ===== src/Webkvstore/Process.antt =====
-- main of webkvstore/main.go as a whole, with the requests that the HTTP service answers until the
-- signal, and Exit of webkvstore/store/store.go.
pub mod Reads
use raft_demo.Base.{Bool, true, false, Option, some, List, [], ◌∷◌, Bytes}
use raft_demo.Membership.{Cluster}
use raft_demo.Node.{Library, ◌>>=◌}
use raft_demo.Webkvstore.Interface.{CommandCodec}
use raft_demo.Webkvstore.Store.{Store, Raft}
use raft_demo.Webkvstore.Store.Instance.{web_store}
use raft_demo.Webkvstore.Service.{Request, Response, MapCodec, serve_http}
use raft_demo.Webkvstore.Start.{Calls, Posted, Flags, main}

-- What Exit reads and changes: whether the recovery log is open, and whether Shutdown was called.
pub record Running : Type 0 where
  pub store : Store
  pub recov_open : Bool
  pub shut_down : Bool

-- Exit
unfoldable pub exit : Running → Running
exit s = record s { recov_open = false; shut_down = true }

module _ (codec : CommandCodec) (texts : (s : Bytes) → codec.IsUtf8 s) (c : Cluster)
    (json : MapCodec) where
  -- the requests, one after the other, each with what Raft does with its proposals
  unfoldable pub serve_all :
      Store × c.State → List (Raft × Request) → (Store × c.State) × List Response
  serve_all s [] = (s, [])
  serve_all s ((raft, r) ∷ rs) =
      let (s', w) = serve_http (web_store codec texts raft c) json s r in
      let (s'', ws) = serve_all s' rs in (s'', w ∷ ws)

  -- main, for the state of the cluster, the requests until the signal, and what main has a part in;
  -- `none` is the end of the process with an error
  unfoldable pub run_main :
      (lib : Library)
      → Calls
      → (serves : Bytes → Bool) → (Posted → Bool)
      → Flags
      → c.State
      → List (Raft × Request)
      → Option (Running × List Response)
  run_main lib calls serves posts fl members requests = do
    p ← main lib calls serves posts fl
    let ((s, _), responses) = serve_all (p.store, members) requests
    some (exit (record { store = s; recov_open = true; shut_down = false }), responses)
