-- ===== src/Kvstore/Options/Documented.antt =====
-- The command lines of README.md and kvstore/docker-compose.yml.
use raft_demo.Base.{
  true, false, not, Option, none, some, List, [], ◌∷◌, ◌++◌, ◌∙◌, ap, Bytes, codes, ◌==◌, ◌≡◌, ◌≢◌,
  refl, dash, arith, All, eq_iff,
}
use raft_demo.Base.Dict
use raft_demo.Base.Dict.{Dict, get-put, get-empty}
use raft_demo.Go.Flags.{assign}
use raft_demo.Go.Flags.Laws.{
  IsName, Settable, spelled, parse-spelled, parse-unknown, last_value, get-assign,
}
use raft_demo.Node.{guard, ◌>>=◌, >>=-none}
use raft_demo.Kvstore.Pods.{Pod}
use raft_demo.Kvstore.Start.{Settings}
use raft_demo.Kvstore.Options.{
  init, own_flags, parse_ips_from_args_config, options_of, load_env_variables,
}

-- The process ends, in whatever environment, at a command line that begins with a flag other than
-- the two profiles and the log folder.
pub init-unknown :
    (lookup_env : Bytes → Option Bytes) (listed : Option (List Pod)) (name : Bytes)
    → (rest : List Bytes) → IsName name
    → name ≢ codes "cpuprofile"
    → name ≢ codes "memprofile"
    → name ≢ codes "logfolder"
    → init false lookup_env listed ((dash ∷ name) ∷ rest) ≡ none
unfolding init last_value
init-unknown lookup_env listed name rest good cpu mem log =
    let missing : Dict.get (assign Dict.empty own_flags) name ≡ none =
      get-assign Dict.empty own_flags name
      ∙ ground (
        arith,
        get-empty {V = Bytes} name,
        eq_iff (codes "logfolder") name,
        eq_iff (codes "memprofile") name,
        eq_iff (codes "cpuprofile") name,
      ) in
    let unknown = parse-unknown (assign Dict.empty own_flags) name rest good missing in
    >>=-none (load_env_variables lookup_env) _ (λ env.
      >>=-none (raft_demo.Kvstore.Start.init env.pod_ip env.pod_name listed) _ (λ settings.
        ap
          (λ (flags : Option (Dict Bytes)). flags >>= (λ fs.
            guard (not (settings.server_id == [])) >>= (λ _. some (options_of settings fs))))
          unknown))

-- the flags of init with staticIPs
abbrev all_flags : List (Bytes × Bytes)
all_flags = parse_ips_from_args_config ++ own_flags

defined : (n : Bytes) → Dict.get (assign Dict.empty all_flags) n ≡ last_value all_flags n none
defined n =
    get-assign Dict.empty all_flags n ∙ ap (last_value all_flags n) (get-empty {V = Bytes} n)

-- what a flag is after the command line has set flags
given :
    (fs : List (Bytes × Bytes)) (n : Bytes)
    → Dict.get (assign (assign Dict.empty all_flags) fs) n
      ≡ last_value fs n (last_value all_flags n none)
given fs n = get-assign (assign Dict.empty all_flags) fs n ∙ ap (last_value fs n) (defined n)

abbrev pub written : (id port raft join hjoin : Bytes) → List (Bytes × Bytes)
written id port raft join hjoin =
    (codes "id", id)
    ∷ (codes "port", port)
    ∷ (codes "raft", raft)
    ∷ (codes "join", join)
    ∷ (codes "hjoin", hjoin)
    ∷ []

written-Settable :
    (id port raft join hjoin : Bytes)
    → All (Settable (assign Dict.empty all_flags)) (written id port raft join hjoin)
unfolding last_value ◌==◌
written-Settable id port raft join hjoin = (
  (ground arith, ([], defined (codes "id"))),
  (
    (ground arith, (codes ":11000", defined (codes "port"))),
    (
      (ground arith, (codes ":12000", defined (codes "raft"))),
      (
        (ground arith, ([], defined (codes "join"))),
        ((ground arith, ([], defined (codes "hjoin"))), tt),
      ),
    ),
  ),
)

-- With staticIPs a replica has the names that are written behind the flags, whatever they are, and
-- the defaults of the other flags.
pub init-spelled :
    (lookup_env : Bytes → Option Bytes) (listed : Option (List Pod))
    → (id port raft join hjoin : Bytes) → id ≢ []
    → init true lookup_env listed (spelled (written id port raft join hjoin))
      ≡ some (record {
        settings = record {
          server_id = id;
          server_port = port;
          raft_addr = raft;
          join_addr = join;
          join_handler_addr = hjoin;
        };
        recov_handler_addr = [];
        cpuprofile = [];
        memprofile = [];
        logfolder = [];
      })
unfolding init options_of last_value ◌==◌
init-spelled lookup_env listed id port raft join hjoin some_id =
    let fs = written id port raft join hjoin in
    let named : (id == []) ≡ false = ground (arith, eq_iff id []) in
    rw
      (
        parse-spelled (assign Dict.empty all_flags) fs (written-Settable id port raft join hjoin),
        given fs (codes "id"),
        named,
        given fs (codes "port"),
        given fs (codes "raft"),
        given fs (codes "join"),
        given fs (codes "hjoin"),
        given fs (codes "hrecov"),
        given fs (codes "cpuprofile"),
        given fs (codes "memprofile"),
        given fs (codes "logfolder"),
      )
      refl
