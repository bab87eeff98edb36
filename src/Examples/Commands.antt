-- ===== src/Examples/Commands.antt =====
-- Command lines of kvstore/ from README.md.
use raft_demo.Base.{◌≡◌, false, Option, none, some, [], ◌∷◌, Bytes, codes, dash, arith}
use raft_demo.Kvstore.Options.{init}
use raft_demo.Kvstore.Options.Documented.{init-unknown}
use raft_demo.Examples.Starts.{pods}

abbrev no_variables : Bytes → Option Bytes
no_variables name = none

-- ./kvstore -id node0 -hjoin :13000
init-unknown_example :
    init false no_variables
      (some pods)
      ((dash ∷ codes "id") ∷ codes "node0" ∷ codes "-hjoin" ∷ codes ":13000" ∷ [])
    ≡ none
init-unknown_example =
    init-unknown no_variables (some pods) (codes "id")
      (codes "node0" ∷ codes "-hjoin" ∷ codes ":13000" ∷ []) (ground arith) (λ e. ground (arith, e))
      (λ e. ground (arith, e)) (λ e. ground (arith, e))
