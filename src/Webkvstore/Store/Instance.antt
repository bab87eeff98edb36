-- ===== src/Webkvstore/Store/Instance.antt =====
-- The store of webkvstore/store/store.go as an implementation of the interface of the HTTP service,
-- for every behaviour of Raft, on keys and values that are UTF-8.
use raft_demo.Base.{
  ◌≡◌, ◌≢◌, refl, Bool, true, false, Option, none, some, [], Bytes, eq_refl, eq_iff, arith, ◌⊎◌,
  inl, inr, Bool-cases,
}
use raft_demo.Membership.{Cluster, join_raft}
use raft_demo.Webkvstore.Interface.{KeyValueStore, CommandCodec}
use raft_demo.Webkvstore.Store.{Store, Raft, get, set, delete}
use raft_demo.Webkvstore.Store.Laws.{value_of, is_committing, HasOps, value_of-set, value_of-delete}

-- Join of webkvstore/store/store.go: the loop of JoinRaft, and then always AddVoter
unfoldable pub join : (c : Cluster) → c.State → Bytes → Bytes → c.State × Bool
join c s node_id addr = join_raft c s node_id addr true

-- The state of a store whose state machine did not panic; where it would, it stays as it is.
abbrev pub settled : Store → Option (Store × Bool) → Store × Bool
settled s none = (s, false)
settled s (some done) = done

module _ (json : CommandCodec) (texts : (s : Bytes) → json.IsUtf8 s) (raft : Raft) where
  pub ops : HasOps json
  ops = record { set_text = texts _; delete_text = texts _; empty_text = texts _ }

  pub set_self :
      (s : Store) (k v : Bytes)
      → (settled s (set json raft s k v)).1 ≡ true
      → value_of (settled s (set json raft s k v)).0 k ≡ v
  set_self s k v h =
      let (s', e, w) = value_of-set json raft s k v k ops (texts k) (texts v) in
      ground (arith, e, w, eq_refl k)

  pub set_other :
      (s : Store) (k v j : Bytes)
      → (settled s (set json raft s k v)).1 ≡ true
      → k ≢ j
      → value_of (settled s (set json raft s k v)).0 j ≡ value_of s j
  set_other s k v j h d =
      let (s', e, w) = value_of-set json raft s k v j ops (texts k) (texts v) in
      ground (arith, e, w, eq_iff k j, d)

  pub delete_self :
      (s : Store) (k : Bytes)
      → (settled s (delete json raft s k)).1 ≡ true
      → value_of (settled s (delete json raft s k)).0 k ≡ []
  delete_self s k h =
      let (s', e, w) = value_of-delete json raft s k k ops (texts k) in
      ground (arith, e, w, eq_refl k)

  pub delete_maybe :
      (s : Store) (k : Bytes)
      → (value_of (settled s (delete json raft s k)).0 k ≡ value_of s k)
        ⊎ (value_of (settled s (delete json raft s k)).0 k ≡ [])
  delete_maybe s k =
      let (s', e, w) = value_of-delete json raft s k k ops (texts k) in
      elim (Bool-cases (is_committing raft)) [
        | inl commits ↦ inr (ground (arith, e, w, commits, eq_refl k))
        | inr refuses ↦ inl (ground (arith, e, w, refuses))
      ]

  pub delete_other :
      (s : Store) (k j : Bytes)
      → k ≢ j
      → value_of (settled s (delete json raft s k)).0 j ≡ value_of s j
  delete_other s k j d =
      let (s', e, w) = value_of-delete json raft s k j ops (texts k) in
      ground (arith, e, w, eq_iff k j, d)

  pub value_of-get : (s : Store) (k j : Bytes) → value_of (get s k).0 j ≡ value_of s j
  unfolding get
  value_of-get s k j = refl

  pub get-value_of : (s : Store) (k : Bytes) → (get s k).1 ≡ some (value_of s k)
  unfolding get
  get-value_of s k = refl

  -- The interface of the service, with a cluster for Join.
  abbrev pub web_store : Cluster → KeyValueStore
  web_store c = record {
    State = Store × c.State;
    get = λ s k. let (s', v) = get s.0 k in ((s', s.1), v);
    set = λ s k v. let (s', done) = settled s.0 (set json raft s.0 k v) in ((s', s.1), done);
    delete = λ s k. let (s', done) = settled s.0 (delete json raft s.0 k) in ((s', s.1), done);
    join = λ s id addr. let (c', done) = join c s.1 id addr in ((s.0, c'), done);
    value = λ s k. value_of s.0 k;
    get_value = λ s k. get-value_of s.0 k;
    get_keeps = λ s k j. value_of-get s.0 k j;
    set_self = λ s k v. set_self s.0 k v;
    set_other = λ s k v j. set_other s.0 k v j;
    delete_self = λ s k. delete_self s.0 k;
    delete_maybe = λ s k. delete_maybe s.0 k;
    delete_other = λ s k j. delete_other s.0 k j;
  }
