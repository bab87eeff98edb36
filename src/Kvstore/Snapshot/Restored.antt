-- ===== src/Kvstore/Snapshot/Restored.antt =====
-- A state that went through a snapshot.
use raft_demo.Base.{
  ℕ, zero, suc, ◌<◌, ◌≡◌, ◌≢◌, refl, ap, sym, ◌∙◌, true, some, none, Option, Bytes, List, [], ◌∷◌,
  ◌++◌, length, set_elem, arith, Option-cases, inl, inr,
}
use raft_demo.Base.Dict
use raft_demo.Base.Dict.{Dict, get-put, get-empty}
use raft_demo.Pb.{Log, Codec}
use raft_demo.Recovery.State.Install.{or_else}
use raft_demo.Kvstore.Fsm.{Store, apply, apply_get}
use raft_demo.Kvstore.Snapshot.{
  Json, Range, Sink, closed, last_of, clone, Live, map_at, store_of, apply_live, run_live, snapshot,
  persist, restore,
}

closed-injective : (a b : Bytes) → closed a ≡ closed b → a ≡ b
closed-injective a b e = ground (arith, e)

pub persist-marshal :
    (json : Json) (m : Dict Bytes) (sink : Sink) (b : Bytes)
    → persist json m sink ≡ closed b
    → json.marshal m ≡ some b
unfolding persist
persist-marshal json m sink b h = elim (Option-cases (json.marshal m)) [
  | inl e ↦ absurd (ground (arith, h, e))
  | inr (b', e) ↦ ground (arith, h, e)
]

get-clone :
    (es : List (Bytes × Bytes)) (o : Dict Bytes) (k : Bytes)
    → Dict.get (clone es o) k ≡ or_else (last_of k es) (Dict.get o k)
unfolding clone
get-clone [] o k = refl
get-clone ((j, v) ∷ es) o k = ground (arith, get-clone es (Dict.put o j v) k, get-put o j k v)

-- A clone has the values of the map.
pub get-clone_entries :
    (range : Range) (m : Dict Bytes) (k : Bytes)
    → Dict.get (clone (range.entries m) Dict.empty) k ≡ Dict.get m k
get-clone_entries range m k = ground (
  arith,
  get-clone (range.entries m) Dict.empty k,
  range.entries-get m k,
  get-empty {V = Bytes} k,
)

map_at-append :
    (maps : List (Dict Bytes)) (o : Dict Bytes) → map_at (maps ++ o ∷ []) (length maps) ≡ o
map_at-append [] o = refl
map_at-append (m ∷ maps) o = map_at-append maps o

map_at-set_elem :
    (maps : List (Dict Bytes)) (i j : ℕ) (o : Dict Bytes)
    → i ≢ j
    → map_at (set_elem maps i o) j ≡ map_at maps j
map_at-set_elem [] i j o apart = refl
map_at-set_elem (m ∷ maps) zero zero o apart = absurd (apart refl)
map_at-set_elem (m ∷ maps) zero (suc j) o apart = refl
map_at-set_elem (m ∷ maps) (suc i) zero o apart = refl
map_at-set_elem (m ∷ maps) (suc i) (suc j) o apart =
    map_at-set_elem maps i j o (λ e. apart (ap suc e))

module _ (pb : Codec) where
  apply_live-map_at :
      (s t : Live) (l : Log) (j : ℕ)
      → apply_live pb s l ≡ some t
      → s.m ≢ j
      → (map_at t.maps j ≡ map_at s.maps j) × (t.m ≡ s.m)
  unfolding apply_live
  apply_live-map_at s t l j h apart =
      ground (arith, h, map_at-set_elem s.maps s.m j (apply pb (store_of s) l).0.m apart)

  -- What Raft applies changes no map but that of the state machine.
  pub run_live-map_at :
      (s t : Live) (ls : List Log) (j : ℕ)
      → run_live pb s ls ≡ some t
      → s.m ≢ j
      → map_at t.maps j ≡ map_at s.maps j
  unfolding run_live
  run_live-map_at s t [] j h apart =
      ap (λ (o : Option Live). elim o [ none ↦ map_at s.maps j | some r ↦ map_at r.maps j ]) (sym h)
  run_live-map_at s t (l ∷ ls) j h apart = elim (Option-cases (apply_live pb s l)) [
    | inl e ↦ absurd (ground (arith, h, e))
    | inr (u, e) ↦
        let (same, ref) = apply_live-map_at s u l j e apart in
        run_live-map_at u t ls j (rw (run_live, e) at h) (λ f. apart (sym ref ∙ f)) ∙ same
  ]

-- Take a snapshot of a replica, whose keys are text, let Raft apply any entries to the replica
-- without a panic, and let the snapshot then be persisted. A second replica that restores what was
-- written has no error, and answers every GET as the first one did at the time of the snapshot,
-- whatever the entries have changed; its log is as before.
pub restore-persist :
    (json : Json) (range : Range) (pb : Codec) (s t : Live) (g : Store) (ls : List Log)
    (sink : Sink) (b : Bytes)
    → s.m < length s.maps
    → ((k : Bytes) → Dict.get (store_of s).m k ≢ none → json.is_text k ≡ true)
    → run_live pb (snapshot range s).0 ls ≡ some t
    → persist json (map_at t.maps (snapshot range s).1) sink ≡ closed b
    → (o : Dict Bytes) × (restore json g b ≡ (record g { m = o }, true))
      × ((k : Bytes) → apply_get (record g { m = o }) k ≡ apply_get (store_of s) k)
unfolding snapshot restore apply_get
restore-persist json range pb s t g ls sink b made text ran h =
    let entries = range.entries (map_at s.maps s.m) in
    let copy = clone entries Dict.empty in
    let kept : map_at t.maps (length s.maps) ≡ copy =
      run_live-map_at pb (snapshot range s).0 t ls (length s.maps) ran
        (λ e. absurd (omega (arith, e, made)))
      ∙ map_at-append s.maps copy in
    let values : (k : Bytes)
        → Dict.get (map_at t.maps (length s.maps)) k ≡ Dict.get (map_at s.maps s.m) k =
      λ k. ap (λ m. Dict.get m k) kept ∙ get-clone_entries range (map_at s.maps s.m) k in
    let (o, e, same) =
      json.decode-marshal (map_at t.maps (length s.maps)) b
        (λ k there. text k (λ missing. there (values k ∙ missing)))
        (persist-marshal json (map_at t.maps (length s.maps)) sink b h) in
    (o, rw (restore, e), λ (k : Bytes). rw (same k ∙ values k))
