-- ===== src/Kvstore/Files.antt =====
-- createFile and readAll of kvstore/store.go, diskstorage/storage.go, the servers and the logger.
use raft_demo.Base.{ℕ, Option, none, some, [], ◌∷◌, ◌++◌, newline, Bytes, drop}
use raft_demo.Go.Files.{File}
use raft_demo.Go.Strconv.{itoa}

-- What os.Stat says of a name: a file with these bytes, none, or another error.
pub data Stat : Type 0 where
  exists : Bytes → Stat
  not_exist : Stat
  failed : Stat

-- createFile, without the flags O_TRUNC and O_APPEND; `none` is a call of log.Fatalln
unfoldable pub create_file : Stat → Option File
create_file (exists content) = some (record { content = content; offset = 0 })
create_file not_exist = some (record { content = []; offset = 0 })
create_file failed = none

-- what createFile opens under a name that is new
abbrev pub new_file : File
new_file = record { content = []; offset = 0 }

-- the text that monitor writes: a number, and the end of the line
abbrev pub line : ℕ → Bytes
line n = itoa n ++ newline ∷ []

-- readAll: what ReadFrom reads up to the end of the file. The capacity that it computes first only
-- saves allocations.
unfoldable pub read_all : File → Bytes
read_all f = drop f.offset f.content
