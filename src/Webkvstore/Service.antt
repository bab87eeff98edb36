-- ===== src/Webkvstore/Service.antt =====
-- webkvstore/webserver/service.go: the handlers of the HTTP service, over any Store.
pub mod Branches
pub mod Listening
use raft_demo.Base.{
  ℕ, Bool, true, false, not, Option, none, some, List, [], ◌∷◌, ◌++◌, Bytes, codes, ◌==◌, eqb,
  length, if◌then◌else◌,
}
use raft_demo.Base.Dict
use raft_demo.Base.Dict.{Dict}
use raft_demo.Go.Strings.{split, has_prefix}
use raft_demo.Webkvstore.Interface.{KeyValueStore}

-- The fields of http.Request that the handlers read.
pub record Request : Type 0 where
  pub method : Bytes
  pub path : Bytes
  pub body : Bytes

-- What was written to the http.ResponseWriter: the first status is the one that counts, and a body
-- with no status in front of it has the status 200.
pub record Response : Type 0 where
  pub status : Option ℕ
  pub body : Bytes

abbrev pub no_response : Response
no_response = record { status = none; body = [] }

-- w.WriteHeader(code)
abbrev pub write_header : Response → ℕ → Response
write_header w code = elim w.status [ none ↦ record w { status = some code } | some _ ↦ w ]

-- io.WriteString(w, text)
abbrev pub write_body : Response → Bytes → Response
write_body w text = record (write_header w 200) { body = w.body ++ text }

-- The calls of encoding/json that the handlers make: the decoding of a body into a map, with the
-- pairs in the order of a later iteration, and the encoding of a map with one pair.
pub record MapCodec : Type 0 where
  pub decode : Bytes → Option (List (Bytes × Bytes))
  pub encode_pair : Bytes → Bytes → Bytes

-- m[key] of the map that the pairs make
unfoldable pub member : List (Bytes × Bytes) → Bytes → Option Bytes
member [] k = none
member ((j, v) ∷ m) k = if j == k then some v else member m k

-- getKey
abbrev pub key_part : List Bytes → Bytes
key_part (_ ∷ _ ∷ k ∷ []) = k
key_part _ = []

unfoldable pub get_key : Bytes → Bytes
get_key path = key_part (split path b'/')

module _ (store : KeyValueStore) (json : MapCodec) where
  open store use {State, get, set, delete, join}

  abbrev pub or_error : Response → State × Bool → State × Response
  or_error w (s, done) = if done then (s, w) else (s, write_header w 500)

  -- the case "GET"
  unfoldable pub handle_get : State → Bytes → State × Response
  handle_get s k =
      let w = if k == [] then write_header no_response 400 else no_response in
      let (s', value) = get s k in
      elim value [
        | none ↦ (s', write_header w 500)
        | some v ↦ (s', write_body w (json.encode_pair k v))
      ]

  -- the loop of the case "POST"
  unfoldable pub set_all : State → List (Bytes × Bytes) → State × Response
  set_all s [] = (s, no_response)
  set_all s ((k, v) ∷ m) =
      let (s', done) = set s k v in
      elim done [ true ↦ set_all s' m | false ↦ (s', write_header no_response 500) ]

  -- the case "POST"
  unfoldable pub handle_post : State → Bytes → State × Response
  handle_post s body = elim (json.decode body) [
    | none ↦ (s, write_header no_response 400)
    | some m ↦ set_all s m
  ]

  -- the case "DELETE"; the key is deleted a second time, and what that returns is dropped
  unfoldable pub handle_delete : State → Bytes → State × Response
  handle_delete s k =
      if k == []
      then (s, write_header no_response 400)
      else (let (s', done) = delete s k in
          if done then ((delete s' k).0, no_response) else (s', write_header no_response 500))

  -- handleKeyRequest
  unfoldable pub handle_key_request : State → Request → State × Response
  handle_key_request s r =
      if r.method == codes "GET"
      then handle_get s (get_key r.path)
      else if r.method == codes "POST"
      then handle_post s r.body
      else if r.method == codes "DELETE"
      then handle_delete s (get_key r.path)
      else (s, write_header no_response 405)

  -- handleJoin, for the map of its body
  unfoldable pub join_pairs : State → List (Bytes × Bytes) → State × Response
  join_pairs s m =
      if not (eqb (length m) 2)
      then (s, write_header no_response 400)
      else elim (member m (codes "addr")) [
        | none ↦ (s, write_header no_response 400)
        | some remote_addr ↦ elim (member m (codes "id")) [
          | none ↦ (s, write_header no_response 400)
          | some node_id ↦ or_error no_response (join s node_id remote_addr)
        ]
      ]

  -- handleJoin
  unfoldable pub handle_join : State → Request → State × Response
  handle_join s r = elim (json.decode r.body) [
    | none ↦ (s, write_header no_response 400)
    | some m ↦ join_pairs s m
  ]

  -- ServeHTTP
  unfoldable pub serve_http : State → Request → State × Response
  serve_http s r =
      if has_prefix r.path (codes "/key")
      then handle_key_request s r
      else if r.path == codes "/join"
      then handle_join s r
      else (s, write_header no_response 404)
