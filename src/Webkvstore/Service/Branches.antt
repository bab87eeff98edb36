-- ===== src/Webkvstore/Service/Branches.antt =====
-- What the handlers answer, and what they do to the store.
use raft_demo.Base.{
  true, ℕ, ◌<◌, ◌≡◌, ◌≢◌, refl, ap, ◌∙◌, none, some, List, [], ◌∷◌, Bytes, codes, ◌==◌, eq_iff,
  if◌then◌else◌, arith, get_or, Bool-cases, Option-cases, inl, inr,
}
use raft_demo.Go.Strings.{has_prefix}
use raft_demo.Webkvstore.Interface.{KeyValueStore}
use raft_demo.Webkvstore.Service.{
  Request, Response, MapCodec, member, set_all, handle_get, handle_post, handle_delete,
  handle_key_request, get_key, join_pairs, handle_join, serve_http,
}

-- the pairs of a map: no key stands twice
abbrev pub IsMap : List (Bytes × Bytes) → Type 0
IsMap [] = Unit
IsMap ((k, v) ∷ m) = (member m k ≡ none) × IsMap m

module _ (store : KeyValueStore) (json : MapCodec) where
  open store use {State, get, set, value}

  set_all-value :
      (s : State) (m : List (Bytes × Bytes)) (k : Bytes)
      → IsMap m
      → (set_all store json s m).1.status ≡ none
      → value (set_all store json s m).0 k ≡ get_or (member m k) (value s k)
  unfolding set_all member
  set_all-value s [] k u h = refl
  set_all-value s ((j, v) ∷ m) k (once, u) h = elim (Bool-cases ((set s j v).1)) [
    | inr refused ↦ ground arith
    | inl done ↦
        let ih = set_all-value (set s j v).0 m k u in
        ground (
          arith,
          eq_iff j k,
          ih,
          λ (e : j ≡ k). ap (member m) e,
          store.set_self s j v done,
          λ (d : j ≢ k). store.set_other s j v k done d,
        )
  ]

  set_all-status :
      (s : State) (m : List (Bytes × Bytes)) (code : ℕ)
      → (set_all store json s m).1.status ≡ some code
      → code ≡ 500
  unfolding set_all
  set_all-status s [] code h = cc
  set_all-status s ((j, v) ∷ m) code h = ground (arith, set_all-status (set s j v).0 m code)

  handle_post-refused :
      (s : State) (body : Bytes) (code : ℕ)
      → (handle_post store json s body).1.status ≡ some code
      → code < 500
      → (handle_post store json s body).0 ≡ s
  unfolding handle_post
  handle_post-refused s body code h low = elim (Option-cases (json.decode body)) [
    | inl e ↦ ground arith
    | inr (m, e) ↦ ground (arith, set_all-status s m code)
  ]

  -- A request that is not a GET and is refused with a status below 500 leaves the store as it was.
  pub serve_http-refused :
      (s : State) (r : Request) (code : ℕ)
      → (serve_http store json s r).1.status ≡ some code
      → code < 500
      → r.method ≢ codes "GET"
      → (serve_http store json s r).0 ≡ s
  unfolding serve_http handle_key_request handle_delete handle_join join_pairs
  serve_http-refused s r code h low other =
      ground (arith, eq_iff r.method (codes "GET"), handle_post-refused s r.body code)

  -- the answer to a GET
  pub handle_get-response :
      (s : State) (k : Bytes)
      → (handle_get store json s k) ≡ (
        (get s k).0,
        record {
          status = some (if k == [] then 400 else 200);
          body = json.encode_pair k (value s k);
        },
      )
  unfolding handle_get
  handle_get-response s k = ground (arith, store.get_value s k)

  -- Every GET of a path that begins with /key is answered with a key and its value, and leaves the
  -- values of all keys. Where the path names a key, it is that key, and the status is 200; where it
  -- names none, it is the empty key, and the status is 400.
  pub serve_http-get :
      (s : State) (r : Request) (j : Bytes)
      → r.method ≡ codes "GET"
      → has_prefix r.path (codes "/key") ≡ true
      → ((serve_http store json s r).1 ≡ record {
        status = some (if get_key r.path == [] then 400 else 200);
        body = json.encode_pair (get_key r.path) (value s (get_key r.path));
      })
        × (value (serve_http store json s r).0 j ≡ value s j)
  unfolding serve_http handle_key_request
  serve_http-get s r j m p = ground (
    arith,
    eq_iff r.method (codes "GET"),
    handle_get-response s (get_key r.path),
    store.get_keeps s (get_key r.path) j,
  )

  -- A POST of a map to a path that begins with /key, where it is answered with no error, gives the
  -- keys of the map their values, and leaves those of the others.
  pub serve_http-post :
      (s : State) (r : Request) (m : List (Bytes × Bytes)) (k : Bytes)
      → r.method ≡ codes "POST"
      → has_prefix r.path (codes "/key") ≡ true
      → json.decode r.body ≡ some m
      → IsMap m
      → (serve_http store json s r).1.status ≡ none
      → value (serve_http store json s r).0 k ≡ get_or (member m k) (value s k)
  unfolding serve_http handle_key_request handle_post
  serve_http-post s r m k posts named decodes once h = ground (
    arith,
    eq_iff r.method (codes "GET"),
    eq_iff r.method (codes "POST"),
    posts,
    named,
    decodes,
    h,
    set_all-value s m k once,
  )

  -- Take a body that decodes to a map. If a POST of it is answered with no error, then a GET of any
  -- key behind it is answered with the value of the body, or for a key that the body does not have,
  -- with the value from before.
  pub handle_get-handle_post :
      (s : State) (body : Bytes) (m : List (Bytes × Bytes)) (k : Bytes)
      → json.decode body ≡ some m
      → IsMap m
      → (handle_post store json s body).1.status ≡ none
      → (handle_get store json (handle_post store json s body).0 k).1.body
        ≡ json.encode_pair k (get_or (member m k) (value s k))
  unfolding handle_post
  handle_get-handle_post s body m k e u h =
      ap (λ (a : State × Response). a.1.body)
        (handle_get-response (handle_post store json s body).0 k)
      ∙ ap (json.encode_pair k)
          (rw (handle_post, e) (set_all-value s m k u (rw (handle_post, e) at h)))

  -- A DELETE that names a key and is answered with no error leaves this key with no value, although
  -- the key is deleted a second time and an error of that is dropped; the values of the other keys
  -- stay.
  pub handle_delete-value :
      (s : State) (k j : Bytes)
      → k ≢ []
      → (handle_delete store json s k).1.status ≡ none
      → value (handle_delete store json s k).0 j ≡ (if k == j then [] else value s j)
  unfolding handle_delete
  handle_delete-value s k j named h =
      let once = (store.delete s k).0 in
      elim (Bool-cases (k == j)) [
        | inl same ↦
            let e : k ≡ j = (eq_iff k j).0 same in
            rw (← e) (
              ground (
                arith,
                h,
                eq_iff k [],
                eq_iff k k,
                store.delete_self s k,
                store.delete_maybe once k,
              ))
        | inr other ↦ ground (
          arith,
          h,
          other,
          eq_iff k [],
          eq_iff k j,
          store.delete_other s k j,
          store.delete_other once k j,
        )
      ]
