-- ===== src/Kvstore/Compressed/Aliased.antt =====
-- What GETs return from the shared buffer of kvstore/fsm.go.
use raft_demo.Base.{
  ℕ, ◌<◌, ◌≡◌, refl, ap, sym, ◌∙◌, some, [], ◌∷◌, Bytes, length, arith, ◌==◌, concat, ltb, false,
  true,
}
use raft_demo.Base.Dict
use raft_demo.Base.Dict.{Dict, get-put, get-put_self}
use raft_demo.Go.Strconv.{itoa}
use raft_demo.Go.Buffers.{Heap, Slice, bytes_of, reset}
use raft_demo.Go.Buffers.Laws.{IsWithin, bytes_of-write_all, length-bytes_of, write_all_room}
use raft_demo.Kvstore.Setup.{pre_initialize, init_value}
use raft_demo.Kvstore.Setup.Keys.{pre_initialize-get}
use raft_demo.Kvstore.Compressed.{Gzip, Store, compress, apply_set, apply_get, new}

-- What a Writer has written for a text is read back whole.
abbrev pub Inverts : Gzip → Type 0
Inverts gzip = (text : Bytes) → gzip.read_all (concat (gzip.parts text)) ≡ some text

module _ (spare : ℕ → ℕ → ℕ) (gzip : Gzip) where
  -- the buffer holds the compressed text, and nothing else
  pub compress_lem :
      (heap : Heap) (buffer : Slice) (text : Bytes)
      → IsWithin heap buffer
      → IsWithin (compress spare gzip heap buffer text).0 (compress spare gzip heap buffer text).1
        × (bytes_of
              (compress spare gzip heap buffer text).0
              (compress spare gzip heap buffer text).1
            ≡ concat (gzip.parts text))
  unfolding compress bytes_of
  compress_lem heap buffer text (there, fits) =
      bytes_of-write_all spare heap (reset buffer) (gzip.parts text) (there, omega arith)

  compress_size :
      (heap : Heap) (buffer : Slice) (text : Bytes)
      → IsWithin heap buffer
      → (compress spare gzip heap buffer text).1.size ≡ length (concat (gzip.parts text))
  compress_size heap buffer text within =
      let (heap', buffer') = compress spare gzip heap buffer text in
      let (within', held) = compress_lem heap buffer text within in
      sym (length-bytes_of heap' buffer' within') ∙ ap length held

  -- a text whose compressed form has the length of the last one is written over it
  compress_over :
      (heap : Heap) (buffer : Slice) (text : Bytes)
      → IsWithin heap buffer
      → length (concat (gzip.parts text)) ≡ buffer.size
      → (compress spare gzip heap buffer text).1 ≡ buffer
  unfolding compress
  compress_over heap buffer text (there, fits) e =
      write_all_room spare heap (reset buffer) (gzip.parts text) there (omega arith)
      ∙ ap (λ n. record { array = buffer.array; size = n }) (omega arith)

  apply_get_found :
      (f : Store) (k : Bytes) (s : Slice) (text : Bytes)
      → Dict.get f.m k ≡ some s
      → gzip.read_all (bytes_of f.heap s) ≡ some text
      → apply_get gzip f k ≡ some (record f { gzip_buffer = reset f.gzip_buffer }, text)
  unfolding apply_get
  apply_get_found f k s text found whole = ground (arith, found, whole)

  -- A GET after a SET of its key returns the text of the SET.
  pub apply_get-apply_set_same :
      Inverts gzip
      → (f : Store) (k text : Bytes) → IsWithin f.heap f.gzip_buffer
      → let f' = (apply_set spare gzip f k text).0 in
        apply_get gzip f' k ≡ some (record f' { gzip_buffer = reset f'.gzip_buffer }, text)
  unfolding apply_set
  apply_get-apply_set_same inverts f k text within =
      let (_, held) = compress_lem f.heap f.gzip_buffer text within in
      apply_get_found (apply_set spare gzip f k text).0 k _ text
        (get-put_self f.m k (compress spare gzip f.heap f.gzip_buffer text).1)
        (ap gzip.read_all held ∙ inverts text)

  -- A key whose slice is the whole buffer reads the text of the next SET of another key, if that is
  -- compressed to as many bytes.
  apply_get-apply_set_over :
      Inverts gzip
      → (f : Store) (k j text : Bytes) → IsWithin f.heap f.gzip_buffer
      → (j == k) ≡ false
      → Dict.get f.m k ≡ some f.gzip_buffer
      → length (concat (gzip.parts text)) ≡ f.gzip_buffer.size
      → let f' = (apply_set spare gzip f j text).0 in
        apply_get gzip f' k ≡ some (record f' { gzip_buffer = reset f'.gzip_buffer }, text)
  unfolding apply_set
  apply_get-apply_set_over inverts f k j text within apart found size =
      let (heap', buffer') = compress spare gzip f.heap f.gzip_buffer text in
      let (_, held) = compress_lem f.heap f.gzip_buffer text within in
      let kept : Dict.get (Dict.put f.m j buffer') k ≡ some buffer' =
        rw (get-put f.m j k buffer', apart)
          (found ∙ ap some (sym (compress_over f.heap f.gzip_buffer text within size))) in
      apply_get_found (apply_set spare gzip f j text).0 k buffer' text kept
        (ap gzip.read_all held ∙ inverts text)

  -- Of two SETs of different keys whose texts are compressed to as many bytes, the second changes
  -- what a GET of the first key returns to its own text, when no SET is between them.
  pub apply_get-apply_set_alias :
      Inverts gzip
      → (f : Store) (k j first second : Bytes) → IsWithin f.heap f.gzip_buffer
      → (j == k) ≡ false
      → length (concat (gzip.parts second)) ≡ length (concat (gzip.parts first))
      → let f' = (apply_set spare gzip (apply_set spare gzip f k first).0 j second).0 in
        apply_get gzip f' k ≡ some (record f' { gzip_buffer = reset f'.gzip_buffer }, second)
  unfolding apply_set
  apply_get-apply_set_alias inverts f k j first second within apart size =
      apply_get-apply_set_over inverts (apply_set spare gzip f k first).0 k j second
        (compress_lem f.heap f.gzip_buffer first within).0 apart
        (get-put_self f.m k (compress spare gzip f.heap f.gzip_buffer first).1)
        (size ∙ sym (compress_size f.heap f.gzip_buffer first within))

  -- A replica that starts reads the initial value under every key that it has. The first SET of a
  -- key with a text that is compressed to as many bytes changes all of them to its text.
  pub apply_get-new :
      Inverts gzip
      → (n i : ℕ) (j text : Bytes) → i < n
      → (j == itoa i) ≡ false
      → length (concat (gzip.parts text)) ≡ length (concat (gzip.parts init_value))
      → let f = new spare gzip n in
        let f' = (apply_set spare gzip f j text).0 in
        (apply_get gzip f (itoa i)
          ≡ some (record f { gzip_buffer = reset f.gzip_buffer }, init_value))
        × (apply_get gzip f' (itoa i)
            ≡ some (record f' { gzip_buffer = reset f'.gzip_buffer }, text))
  unfolding new
  apply_get-new inverts n i j text below apart size =
      let nothing : Slice = record { array = 0; size = 0 } in
      let (heap, buffer) = compress spare gzip ([] ∷ []) nothing init_value in
      let (within, held) = compress_lem ([] ∷ []) nothing init_value (omega arith, omega arith) in
      let listed : ltb i n ≡ true = ground arith in
      let found : Dict.get (pre_initialize n buffer Dict.empty) (itoa i) ≡ some buffer =
        rw (pre_initialize-get n buffer Dict.empty i, listed) refl in
      (
        apply_get_found (new spare gzip n) (itoa i) buffer init_value found
            (ap gzip.read_all held ∙ inverts init_value),
        apply_get-apply_set_over inverts (new spare gzip n) (itoa i) j text within apart found
            (size ∙ sym (compress_size ([] ∷ []) nothing init_value (omega arith, omega arith))),
      )
