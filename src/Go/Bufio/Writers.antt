-- ===== src/Go/Bufio/Writers.antt =====
-- Type bufio.Writer, over a connection that takes all bytes.
use raft_demo.Base.{
  ℕ, ◌+◌, ◌≤◌, ◌<◌, ◌≡◌, refl, ap, sym, ◌∙◌, true, [], ◌∷◌, ◌++◌, append-nil, append_assoc, Bytes,
  length, length-append, ltb, if◌then◌else◌, arith, Bool-cases, inl, inr,
}

-- The bytes in the buffer, and those that have reached the connection.
pub record Writer : Type 0 where
  pub held : Bytes
  pub written : Bytes

abbrev pub new_writer : Writer
new_writer = record { held = []; written = [] }

-- Flush
abbrev pub flush : Writer → Writer
flush w = record { held = []; written = w.written ++ w.held }

-- a byte for a buffer of a size, which is flushed when it is full
unfoldable pub put_byte : ℕ → Writer → ℕ → Writer
put_byte size w b =
    if ltb (length w.held) size
    then record w { held = w.held ++ b ∷ [] }
    else record { held = b ∷ []; written = w.written ++ w.held }

-- WriteString
unfoldable pub write_string : ℕ → Writer → Bytes → Writer
write_string size w [] = w
write_string size w (b ∷ s) = write_string size (put_byte size w b) s

-- A text that fits the buffer stays there.
pub write_string-held :
    (size : ℕ) (w : Writer) (s : Bytes)
    → length w.held + length s ≤ size
    → write_string size w s ≡ record { held = w.held ++ s; written = w.written }
unfolding write_string put_byte
write_string-held size w [] fits =
    ap (λ l. record { held = l; written = w.written }) (sym (append-nil w.held))
write_string-held size w (b ∷ s) fits =
    let room : ltb (length w.held) size ≡ true = ground arith in
    let longer : Bytes = w.held ++ b ∷ [] in
    rw room (
      write_string-held size (record w { held = longer }) s
        (omega (arith, length-append w.held (b ∷ [])))
      ∙ ap (λ l. record { held = l; written = w.written }) (append_assoc w.held (b ∷ []) s))

put_byte_kept :
    (size : ℕ) (w : Writer) (b : ℕ)
    → 0 < size
    → length w.held ≤ size
    → ((put_byte size w b).written ++ (put_byte size w b).held ≡ (w.written ++ w.held) ++ b ∷ [])
      × (length (put_byte size w b).held ≤ size)
unfolding put_byte
put_byte_kept size w b some_size fits = elim (Bool-cases (ltb (length w.held) size)) [
  | inl room ↦
      let below : length w.held < size = ground arith in
      rw room
        (sym (append_assoc w.written w.held (b ∷ [])), omega (arith, length-append w.held (b ∷ [])))
  | inr full ↦ rw full (refl, some_size)
]

-- No byte is lost or moved, and a buffer that has a size never holds more than that.
pub write_string-kept :
    (size : ℕ) (w : Writer) (s : Bytes)
    → 0 < size
    → length w.held ≤ size
    → ((write_string size w s).written ++ (write_string size w s).held ≡ (w.written ++ w.held) ++ s)
      × (length (write_string size w s).held ≤ size)
unfolding write_string put_byte
write_string-kept size w [] some_size fits = (sym (append-nil (w.written ++ w.held)), fits)
write_string-kept size w (b ∷ s) some_size fits =
    let (kept, room) = put_byte_kept size w b some_size fits in
    let (all_kept, all_room) = write_string-kept size (put_byte size w b) s some_size room in
    (all_kept ∙ ap (λ l. l ++ s) kept ∙ append_assoc (w.written ++ w.held) (b ∷ []) s, all_room)
