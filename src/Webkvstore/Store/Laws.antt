-- ===== src/Webkvstore/Store/Laws.antt =====
-- The methods on the map, in every state of Raft.
use raft_demo.Base.{
  ◌≡◌, refl, Bool, true, false, some, [], ◌∷◌, ◌++◌, Bytes, codes, ◌==◌, eq_refl, get_or,
  if◌then◌else◌, arith,
}
use raft_demo.Base.Dict
use raft_demo.Base.Dict.{get-put, get-remove}
use raft_demo.Webkvstore.Interface.{CommandCodec}
use raft_demo.Webkvstore.Store.{
  Store, Raft, follower, refusing, committing, set_op, delete_op, apply, apply_set, apply_delete,
  dispatch, propose, set, delete, set_to, deleted,
}

-- the value of a key, with the empty text for a missing one
abbrev pub value_of : Store → Bytes → Bytes
value_of s k = get_or (Dict.get s.m k) []

abbrev pub is_committing : Raft → Bool
is_committing committing = true
is_committing _ = false

other_op : (delete_op == set_op) ≡ false
unfolding ◌==◌
other_op = refl

module _ (json : CommandCodec) where
  -- The texts that the commands have.
  pub record HasOps : Type 0 where
    pub set_text : json.IsUtf8 set_op
    pub delete_text : json.IsUtf8 delete_op
    pub empty_text : json.IsUtf8 []

  -- For a key and a value that are UTF-8 (as the names of the operations are), a Set never panics.
  -- It returns no error exactly if Raft commits, and then its key has the value; the values of the
  -- other keys stay, and all values stay if there is an error.
  pub value_of-set :
      (raft : Raft) (s : Store) (k v j : Bytes)
      → HasOps
      → json.IsUtf8 k
      → json.IsUtf8 v
      → (s' : Store) × (set json raft s k v ≡ some (s', is_committing raft))
        × (value_of s' j
            ≡ (if is_committing raft then (if k == j then v else value_of s j) else value_of s j))
  unfolding set propose apply dispatch apply_set
  value_of-set follower s k v j h hk hv = (s, refl, refl)
  value_of-set refusing s k v j h hk hv = (s, refl, refl)
  value_of-set committing s k v j h hk hv = (
    record {
      m = Dict.put s.m k v;
      recov = s.recov ++ set_to (codes "Set key: " ++ (k ++ (codes ", value: " ++ v))) ∷ [];
    },
    rw (
      set,
      propose,
      apply,
      json.unmarshal-marshal (record { op = set_op; key = k; value = v }) (h.set_text, hk, hv),
      dispatch,
      eq_refl set_op,
    ),
    ground (arith, get-put s.m k j v),
  )

  -- For a key that is UTF-8 (as the names of the operations are), a Delete never panics. It returns
  -- no error exactly if Raft commits, and then its key has the empty text; the values of the other
  -- keys stay, and all values stay if there is an error.
  pub value_of-delete :
      (raft : Raft) (s : Store) (k j : Bytes)
      → HasOps
      → json.IsUtf8 k
      → (s' : Store) × (delete json raft s k ≡ some (s', is_committing raft))
        × (value_of s' j
            ≡ (if is_committing raft then (if k == j then [] else value_of s j) else value_of s j))
  unfolding delete propose apply dispatch apply_delete
  value_of-delete follower s k j h hk = (s, refl, refl)
  value_of-delete refusing s k j h hk = (s, refl, refl)
  value_of-delete committing s k j h hk = (
    record { m = Dict.remove s.m k; recov = s.recov ++ deleted (codes "Delete key: " ++ k) ∷ [] },
    rw (
      delete,
      propose,
      apply,
      json.unmarshal-marshal (record { op = delete_op; key = k; value = [] })
          (h.delete_text, hk, h.empty_text),
      dispatch,
      other_op,
      eq_refl delete_op,
    ),
    ground (arith, get-remove s.m k j),
  )
