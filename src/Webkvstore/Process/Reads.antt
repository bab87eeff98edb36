-- ===== src/Webkvstore/Process/Reads.antt =====
-- What the requests of a run have left in the map.
use raft_demo.Base.{◌≡◌, refl, true, none, some, List, [], ◌∷◌, Bytes, codes, ◌∙◌, get_or, All}
use raft_demo.Go.Strings.{has_prefix}
use raft_demo.Membership.{Cluster}
use raft_demo.Webkvstore.Interface.{CommandCodec}
use raft_demo.Webkvstore.Store.{Store, Raft}
use raft_demo.Webkvstore.Store.Laws.{value_of}
use raft_demo.Webkvstore.Store.Instance.{web_store}
use raft_demo.Webkvstore.Service.{Request, MapCodec, member, serve_http}
use raft_demo.Webkvstore.Service.Branches.{IsMap, serve_http-get, serve_http-post}
use raft_demo.Webkvstore.Process.{serve_all}

-- A GET of a path that begins with /key.
pub record IsGet (e : Raft × Request) : Type 0 where
  pub gets : e.1.method ≡ codes "GET"
  pub names_key : has_prefix e.1.path (codes "/key") ≡ true

-- A POST to such a path, of a body that decodes to a map.
pub record IsPost (json : MapCodec) (r : Request) (m : List (Bytes × Bytes)) : Type 0 where
  pub posts : r.method ≡ codes "POST"
  pub names_key : has_prefix r.path (codes "/key") ≡ true
  pub decodes : json.decode r.body ≡ some m
  pub once : IsMap m

module _ (codec : CommandCodec) (texts : (s : Bytes) → codec.IsUtf8 s) (c : Cluster)
    (json : MapCodec) where
  serve_all-get :
      (s : Store × c.State) (es : List (Raft × Request)) (k : Bytes)
      → All IsGet es
      → value_of (serve_all codec texts c json s es).0.0 k ≡ value_of s.0 k
  unfolding serve_all
  serve_all-get s [] k gets = refl
  serve_all-get s ((raft, r) ∷ es) k (g, gets) =
      let web = web_store codec texts raft c in
      serve_all-get (serve_http web json s r).0 es k gets
      ∙ (serve_http-get web json s r k g.gets g.names_key).1

  -- Take a POST of a map that is answered with no error, and only GETs behind
  -- it, whatever Raft does with each. Then a key of the map has the value of the map at the end, and
  -- every other key has the value from before the POST.
  pub serve_all-post :
      (before : Store × c.State) (raft : Raft) (r : Request) (m : List (Bytes × Bytes))
      (es : List (Raft × Request)) (k : Bytes)
      → IsPost json r m
      → (serve_http (web_store codec texts raft c) json before r).1.status ≡ none
      → All IsGet es
      → value_of (serve_all codec texts c json before ((raft, r) ∷ es)).0.0 k
        ≡ get_or (member m k) (value_of before.0 k)
  unfolding serve_all
  serve_all-post before raft r m es k p h gets =
      serve_all-get (serve_http (web_store codec texts raft c) json before r).0 es k gets
      ∙ serve_http-post (web_store codec texts raft c) json before r m k p.posts p.names_key
          p.decodes p.once h
