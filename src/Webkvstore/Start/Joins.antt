-- ===== src/Webkvstore/Start/Joins.antt =====
-- What the leader does with the request of a node.
use raft_demo.Base.{
  ◌≡◌, ◌≢◌, ◌⊎◌, inl, inr, refl, sym, subst, ◌∙◌, ap, Bool, false, Option, some, [], ◌∷◌, ◌++◌,
  Bytes, codes, ◌==◌, eq_iff, arith, Bool-cases, Option-cases,
}
use raft_demo.Go.Strings.{has_prefix}
use raft_demo.Node.{Library, guard, >>=-some}
use raft_demo.Webkvstore.Interface.{KeyValueStore}
use raft_demo.Webkvstore.Service.{
  Request, MapCodec, no_response, or_error, member, join_pairs, handle_join, serve_http,
}
use raft_demo.Webkvstore.Start.{
  Calls, Posted, Flags, Process, raft_dir_of, open_store, join, join_if, new, main,
}

-- The text of a join request is read as its two pairs, in one of the two orders.
abbrev pub IsRead : MapCodec → Bytes → (addr id : Bytes) → Type 0
IsRead json text addr id =
    (json.decode text ≡ some ((codes "addr", addr) ∷ (codes "id", id) ∷ []))
    ⊎ (json.decode text ≡ some ((codes "id", id) ∷ (codes "addr", addr) ∷ []))

-- the request that http.Post makes of it
abbrev pub request_of : Posted → Request
request_of posted = record { method = codes "POST"; path = codes "/join"; body = posted.body }

module _ (store : KeyValueStore) (json : MapCodec) where
  serve_http-routes :
      (s : store.State) (posted : Posted)
      → serve_http store json s (request_of posted) ≡ handle_join store json s (request_of posted)
  unfolding serve_http has_prefix ◌==◌
  serve_http-routes s posted = refl

  handle_join-IsRead :
      (s : store.State) (posted : Posted) (addr id : Bytes)
      → IsRead json posted.body addr id
      → handle_join store json s (request_of posted)
        ≡ or_error store json no_response (store.join s id addr)
  unfolding handle_join join_pairs member ◌==◌
  handle_join-IsRead s posted addr id (inl read) = rw (handle_join, read) refl
  handle_join-IsRead s posted addr id (inr read) = rw (handle_join, read) refl

module _ (lib : Library) (calls : Calls) (posts : Posted → Bool) where
  abbrev expected : Flags → Posted
  expected fl = record {
    url = codes "http://" ++ fl.join_addr ++ codes "/join";
    body = calls.marshal_join fl.raft_addr fl.node_id;
  }

  join-expected :
      (fl : Flags) (posted : Posted)
      → join lib calls posts fl.join_addr fl.raft_addr fl.node_id ≡ some posted
      → posted ≡ expected fl
  unfolding join
  join-expected fl posted h = ground (arith, h, Bool-cases (posts (expected fl)))

  join_if-expected :
      (fl : Flags) (posted : Option Posted)
      → (fl.join_addr == []) ≡ false
      → join_if lib calls posts fl ≡ some posted
      → posted ≡ some (expected fl)
  join_if-expected fl posted full h =
      elim (Option-cases (join lib calls posts fl.join_addr fl.raft_addr fl.node_id)) [
        | inl e ↦ absurd (cc (rw (full, e) at h))
        | inr (q, e) ↦
            let h' : some (some q) ≡ some posted = rw (full, e) at h in
            let same : some q ≡ posted = cc in sym same ∙ ap some (join-expected fl q e)
      ]

  main-posted :
      (serves : Bytes → Bool) (fl : Flags) (p : Process lib)
      → main lib calls serves posts fl ≡ some p
      → (dir : Bytes) × (raft_dir_of fl.args ≡ some dir)
        × (open_store lib calls fl.inmem dir fl.raft_addr (fl.join_addr == []) fl.node_id
            ≡ some p.node)
        × (join_if lib calls posts fl ≡ some p.posted)
  unfolding main
  main-posted serves fl p m =
      let (dir, given, m1) = >>=-some (raft_dir_of fl.args) _ p m in
      let (ra, opened, m2) =
        >>=-some (open_store lib calls fl.inmem dir fl.raft_addr (fl.join_addr == []) fl.node_id) _
          p m1 in
      let (_, served, m3) = >>=-some (guard (serves fl.http_addr)) _ p m2 in
      let (posted, asked, m4) = >>=-some (join_if lib calls posts fl) _ p m3 in
      let same : record { store = new; node = ra; posted = posted } ≡ p = cc in
      (dir, given, opened ∙ ap (λ q. some q.node) same, asked ∙ ap (λ q. some q.posted) same)

  -- A node whose main comes to its end with an address to join at has opened its store without a
  -- cluster of its own, and has posted one request to that address. If the JSON of the request is
  -- read as the map that was written, in any order, then the service of the node there calls Join
  -- with the ID and the Raft address of this node, and answers 500 exactly at an error of it.
  pub main-serve_http :
      (store : KeyValueStore) (json : MapCodec) (s : store.State) (serves : Bytes → Bool)
      (fl : Flags) (p : Process lib)
      → fl.join_addr ≢ []
      → IsRead json (calls.marshal_join fl.raft_addr fl.node_id) fl.raft_addr fl.node_id
      → main lib calls serves posts fl ≡ some p
      → (dir : Bytes) × (posted : Posted) × (open_store lib calls fl.inmem dir fl.raft_addr false
            fl.node_id
          ≡ some p.node)
        × (p.posted ≡ some posted)
        × (posted.url ≡ codes "http://" ++ fl.join_addr ++ codes "/join")
        × (serve_http store json s (request_of posted)
            ≡ or_error store json no_response (store.join s fl.node_id fl.raft_addr))
  main-serve_http store json s serves fl p full read m =
      let (dir, given, opened, asked) = main-posted serves fl p m in
      let tested : (fl.join_addr == []) ≡ false = ground (arith, eq_iff fl.join_addr [], full) in
      (
        dir,
        expected fl,
        subst (λ e. open_store lib calls fl.inmem dir fl.raft_addr e fl.node_id ≡ some p.node)
            tested opened,
        join_if-expected fl p.posted tested asked,
        refl,
        serve_http-routes store json s (expected fl)
            ∙ handle_join-IsRead store json s (expected fl) fl.raft_addr fl.node_id read,
      )
