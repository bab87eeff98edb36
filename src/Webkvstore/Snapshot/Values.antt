-- ===== src/Webkvstore/Snapshot/Values.antt =====
-- The values of a store that was restored.
use raft_demo.Base.{◌≡◌, ◌≢◌, true, none, Bytes, refl, ◌∙◌}
use raft_demo.Base.Dict
use raft_demo.Base.Dict.{Dict}
use raft_demo.Kvstore.Snapshot.{Json, Range, Sink, closed}
use raft_demo.Kvstore.Snapshot.Restored.{persist-marshal, get-clone_entries}
use raft_demo.Webkvstore.Store.{Store}
use raft_demo.Webkvstore.Store.Laws.{value_of}
use raft_demo.Webkvstore.Snapshot.{snapshot, persist, restore}

-- If a snapshot of a store was persisted, and the keys of its map are text, then the Restore of
-- what was written, on any node, has no error, and gives every key the value that it had in the
-- snapshot.
pub value_of-restore :
    (json : Json) (range : Range) (f g : Store) (sink : Sink) (b k : Bytes)
    → ((j : Bytes) → Dict.get f.m j ≢ none → json.is_text j ≡ true)
    → persist json (snapshot range f) sink ≡ closed b
    → ((restore json g b).1 ≡ true) × (value_of (restore json g b).0 k ≡ value_of f k)
unfolding persist restore snapshot
value_of-restore json range f g sink b k text h =
    let copy = snapshot range f in
    let values : (j : Bytes) → Dict.get copy j ≡ Dict.get f.m j = get-clone_entries range f.m in
    let (o, e, same) =
      json.decode-marshal copy b (λ j there. text j (λ missing. there (values j ∙ missing)))
        (persist-marshal json copy sink b h) in
    rw (restore, e) (refl, rw (same k ∙ values k) refl)
