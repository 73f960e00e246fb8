-- ===== src/Json/Spool.antt =====
-- The hash of a text that comes in chunks (src/state/outbox-json.ts: hashCanonicalStream). Small texts
-- stay in memory, and a larger one goes through a file.
pub mod Writes
pub mod Chunks
pub mod Digest
mod Tests
use openwebui_gjc_adapter.Metadata.{decimal}
use openwebui_gjc_adapter.Prelude.{
  ℕ, zero, suc, ◌+◌, List, [], ◌∷◌, ◌++◌, map, Option, none, some, Text, Result, ok, err, ◌>>=◌,
  ◌>>◌, throw_if, ltb, leb, ◌==◌, if◌then◌else◌, length,
}

-- The file of the spool: whether it can be made, and for each write or read, by its place and the
-- number of bytes that are left, the number of bytes that it moves, or the error that it throws.
pub record Disk : Type 0 where
  pub create : Result Text (Unit {0})
  pub accept : ℕ → ℕ → Result Text ℕ
  pub give : ℕ → ℕ → Result Text ℕ

-- The bytes of a text in UTF-8, and the hexadecimal digest of bytes.
pub record Hasher : Type 0 where
  pub utf8 : Text → List ℕ
  pub sha256_hex : List ℕ → Text

pub data Failure : Type 0 where
  creating writing reading : Text → Failure
  no_progress : Failure
  -- the model's own: the loops have fuel enough
  out_of_fuel : Failure

abbrev pub take : ℕ → List ℕ → List ℕ
take zero bytes = []
take (suc n) [] = []
take (suc n) (b ∷ bytes) = b ∷ take n bytes

abbrev pub drop : ℕ → List ℕ → List ℕ
drop zero bytes = bytes
drop (suc n) [] = []
drop (suc n) (b ∷ bytes) = drop n bytes

abbrev pub moved : (Text → Failure) → Result Text ℕ → Result Failure ℕ
moved failure (ok n) = ok n
moved failure (err message) = err (failure message)

-- The file that is written, and how many calls were made.
pub record Spooled : Type 0 where
  pub bytes : List ℕ
  pub calls : ℕ

pub write_sync_all : Disk → ℕ → List ℕ → Spooled → Result Failure Spooled
write_sync_all disk fuel [] s = ok s
write_sync_all disk zero (b ∷ rest) s = err out_of_fuel
write_sync_all disk (suc fuel) (b ∷ rest) s = do
  written ← moved writing (disk.accept s.calls (length (b ∷ rest)))
  throw_if (written == 0) no_progress
  write_sync_all disk fuel (drop written (b ∷ rest))
      (record { bytes = s.bytes ++ take written (b ∷ rest); calls = s.calls + 1 })

pub write_bytes : Disk → List ℕ → Spooled → Result Failure Spooled
unfolding write_sync_all
write_bytes disk bytes s = write_sync_all disk (length bytes) bytes s

pub write_chunks : Disk → Hasher → List Text → Spooled → Result Failure Spooled
unfolding write_bytes
write_chunks disk hasher [] s = ok s
write_chunks disk hasher (chunk ∷ chunks) s = do
  s' ← write_bytes disk (hasher.utf8 chunk) s
  write_chunks disk hasher chunks s'

-- `memoryChunks`, `memoryBytes`, the spool and `length`
pub record Production : Type 0 where
  pub memory_chunks : List Text
  pub memory_bytes : ℕ
  pub spool : Option Spooled
  pub units : ℕ

pub created : Result Text (Unit {0}) → Result Failure (Unit {0})
created (ok u) = ok u
created (err message) = err (creating message)

pub spill : Disk → Hasher → Text → Production → Result Failure Production
unfolding created write_chunks write_bytes
spill disk hasher chunk p = do
  created disk.create
  s ← write_chunks disk hasher p.memory_chunks (record { bytes = []; calls = 0 })
  s' ← write_bytes disk (hasher.utf8 chunk) s
  ok (record p { memory_chunks = []; spool = some s' })

-- The function that is called with each chunk, after `length += chunk.length`.
pub take_chunk : Disk → Hasher → Text → Option Spooled → Production → Result Failure Production
unfolding spill write_bytes
take_chunk disk hasher chunk none p =
    if leb (p.memory_bytes + length (hasher.utf8 chunk)) 65536
    then ok (record p {
      memory_chunks = p.memory_chunks ++ (chunk ∷ []);
      memory_bytes = p.memory_bytes + length (hasher.utf8 chunk);
    })
    else spill disk hasher chunk p
take_chunk disk hasher chunk (some s) p = do
  s' ← write_bytes disk (hasher.utf8 chunk) s
  ok (record p { spool = some s' })

pub produce : Disk → Hasher → List Text → Production → Result Failure Production
unfolding take_chunk
produce disk hasher [] p = ok p
produce disk hasher (chunk ∷ chunks) p = do
  p' ← take_chunk disk hasher chunk p.spool (record p { units = p.units + length chunk })
  produce disk hasher chunks p'

-- `for (;;)`: each read is handed to the hasher; the buffer has 65,536 bytes.
pub read_all : Disk → ℕ → ℕ → List ℕ → List ℕ → Result Failure (List ℕ)
read_all disk zero calls rest hashed = err out_of_fuel
read_all disk (suc fuel) calls rest hashed = do
  count ← moved reading (disk.give calls (length rest))
  let more = read_all disk fuel (calls + 1) (drop count rest) (hashed ++ take count rest)
  if count == 0 then ok hashed else more

pub concat_bytes : Hasher → List Text → List ℕ
concat_bytes hasher [] = []
concat_bytes hasher (chunk ∷ chunks) = hasher.utf8 chunk ++ concat_bytes hasher chunks

-- What is hashed between the prefix and the end.
pub hashed_bytes : Disk → Hasher → Option Spooled → List Text → Result Failure (List ℕ)
unfolding read_all concat_bytes
hashed_bytes disk hasher none chunks = ok (concat_bytes hasher chunks)
hashed_bytes disk hasher (some s) chunks = read_all disk (length s.bytes + 1) 0 s.bytes []

pub hash_canonical_stream : Disk → Hasher → List Text → Result Failure Text
unfolding produce hashed_bytes
hash_canonical_stream disk hasher chunks = do
  p ←
      produce disk hasher chunks
        (record { memory_chunks = []; memory_bytes = 0; spool = none; units = 0 })
  bytes ← hashed_bytes disk hasher p.spool p.memory_chunks
  ok (
      hasher.sha256_hex
        (hasher.utf8 (decimal p.units ++ (b':' ∷ [])) ++ (bytes ++ hasher.utf8 (b';' ∷ []))))
