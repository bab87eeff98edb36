-- ===== src/Examples/Setup.antt =====
-- How the processes start, and the snapshot of a store.
use raft_demo.Base.{
  arith, ℕ, zero, suc, ◌≡◌, refl, true, false, Option, none, some, List, [], ◌∷◌, ◌++◌, Bytes,
  codes, length, take, drop, take-length-append, drop-length-append, ◌==◌,
}
use raft_demo.Base.Dict
use raft_demo.Base.Dict.{Dict}
use raft_demo.Go.Strings.{split, contains}
use raft_demo.Kvstore.Fsm.{Store, apply, dispatch, apply_set, log_command, apply_get}
use raft_demo.Kvstore.Pods.{Pod}
use raft_demo.Kvstore.Pods.Leader.{last_ip}
use raft_demo.Kvstore.Snapshot.{
  Json, Range, Sink, closed, last_of, clone, Live, map_at, store_of, apply_live, run_live, snapshot,
  persist, restore,
}
use raft_demo.Kvstore.Files.{new_file}
use raft_demo.Pb.Sample.{sample_codec}
use raft_demo.Recovery.State.Install.{or_else}
use raft_demo.Examples.Logs.{entry, put_again}
use raft_demo.Kvstore.Snapshot.Restored.{restore-persist}
use raft_demo.Logger.Setup.{
  Config, parse_ips_from_args_config, count_diff_str_in_slice, count_diff, is_found,
}

abbrev pods : List Pod
pods =
    record { container = some (codes "app-leader-10"); pod_ip = codes "10.1.0.2" }
    ∷ record { container = some (codes "app-logger"); pod_ip = [] }
    ∷ []

-- A replica with the index 1 finds the leader with the index 10.
last_ip_test : last_ip (codes "leader-1") pods [] ≡ codes "10.1.0.2:13000"
unfolding last_ip contains ◌==◌
last_ip_test = refl

abbrev config : Config
config = record {
  num_apps = 2;
  log_ids = codes "l" ∷ codes "m" ∷ [];
  raft_addrs = codes ":1" ∷ codes ":2" ∷ [];
  join_addrs = codes ":3" ∷ codes ":4" ∷ [];
}

accepted : parse_ips_from_args_config (codes "l,m") (codes ":1,:2") (codes ":3,:4") ≡ some config
unfolding parse_ips_from_args_config count_diff_str_in_slice count_diff is_found split ◌==◌
accepted = refl

-- A codec of maps that meets the laws: the number of entries, and each entry with its lengths.
abbrev encode : List (Bytes × Bytes) → Bytes
encode [] = []
encode ((k, v) ∷ es) = length k ∷ length v ∷ (k ++ (v ++ encode es))

abbrev decode : ℕ → Bytes → List (Bytes × Bytes)
decode zero s = []
decode (suc n) (i ∷ j ∷ s) = (take i s, take j (drop i s)) ∷ decode n (drop j (drop i s))
decode (suc n) _ = []

decode-encode : (es : List (Bytes × Bytes)) → decode (length es) (encode es) ≡ es
decode-encode [] = refl
decode-encode ((k, v) ∷ es) = rw (
  take-length-append k (v ++ encode es),
  drop-length-append k (v ++ encode es),
  take-length-append v (encode es),
  drop-length-append v (encode es),
  decode-encode es,
)

abbrev decode_map : Bytes → Option (Dict Bytes)
decode_map [] = none
decode_map (n ∷ s) = some (record { entries = decode n s })

abbrev encode_map : Dict Bytes → Bytes
encode_map m = length m.entries ∷ encode m.entries

decode_map-encode_map : (m : Dict Bytes) → decode_map (encode_map m) ≡ some m
decode_map-encode_map m = rw (decode-encode m.entries)

read_back :
    (m : Dict Bytes) (b : Bytes)
    → some (encode_map m) ≡ some b
    → (o : Dict Bytes) × (decode_map b ≡ some o) × ((k : Bytes) → Dict.get o k ≡ Dict.get m k)
read_back m b e =
    let same : encode_map m ≡ b = cc e in
    (m, rw (← same) (decode_map-encode_map m), λ (k : Bytes). refl)

abbrev sample_json : Json
sample_json = record {
  marshal = λ m. some (encode_map m);
  decode = decode_map;
  is_text = λ k. true;
  decode-marshal = λ m b t e. read_back m b e;
}

-- A range that visits the entries from the last to the first.
abbrev back : List (Bytes × Bytes) → List (Bytes × Bytes) → List (Bytes × Bytes)
back [] done = done
back (e ∷ es) done = back es (e ∷ done)

last_of-back :
    (k : Bytes) (es done : List (Bytes × Bytes))
    → last_of k (back es done) ≡ or_else (last_of k done) (Dict.get (record { entries = es }) k)
last_of-back k [] done = ground (arith, Dict.get-nil {V = Bytes} k)
last_of-back k ((j, v) ∷ es) done =
    ground (arith, last_of-back k es ((j, v) ∷ done), Dict.get-cons j v es k)

abbrev backward : Range
backward = record {
  entries = λ m. back m.entries [];
  entries-get = λ m k. last_of-back k m.entries [];
}

-- A replica that holds one entry, and overwrites it behind the snapshot.
abbrev old : Live
old = record {
  maps = Dict.put Dict.empty (codes "a") (codes "1") ∷ [];
  m = 0;
  logging = false;
  log_file = new_file;
}

abbrev overwritten : Live
overwritten = record old {
  maps =
      Dict.put (map_at old.maps 0) (codes "a") (codes "2")
      ∷ clone (backward.entries (map_at old.maps 0)) Dict.empty
      ∷ [];
}

abbrev new : Store
new = record { m = Dict.empty; logging = false; log_file = new_file }

abbrev sink : Sink
sink = record { writes = true; closes = true }

abbrev written : Bytes
written = encode_map (map_at overwritten.maps 1)

old_run :
    run_live sample_codec (snapshot backward old).0 (entry 2 put_again ∷ []) ≡ some overwritten
unfolding run_live apply_live snapshot apply dispatch apply_set log_command
old_run = refl

persisted :
    persist sample_json (map_at overwritten.maps (snapshot backward old).1) sink ≡ closed written
unfolding persist snapshot
persisted = refl

restore-persist_example :
    (o : Dict Bytes) × (restore sample_json new written ≡ (record new { m = o }, true))
    × ((k : Bytes) → apply_get (record new { m = o }) k ≡ apply_get (store_of old) k)
restore-persist_example =
    restore-persist sample_json backward sample_codec old overwritten new (entry 2 put_again ∷ [])
      sink written (omega arith) (λ k h. refl) old_run persisted
