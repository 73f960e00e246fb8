-- ===== src/Outbox/File/Persist/Disk.antt =====
-- What the outbox relies on in a file system (src/state/outbox-types.ts: OutboxFileSystem).
use openwebui_gjc_adapter.Outbox.File.Monad.{Failure, system}
use openwebui_gjc_adapter.Outbox.File.Persist.{FileSystem, exclusive, reading}
use openwebui_gjc_adapter.Prelude.{◌≡◌, ◌≢◌, ℕ, Option, some, true, Text, ok, err}

-- What can be seen of the files: what each path holds, and the path for which a descriptor is open.
pub record Disk (fs : FileSystem) : Type 0 where
  pub content : fs.World → Text → Option Text
  pub opened : fs.World → ℕ → Option Text

-- What the file system documents: only an exclusive open, a write to the descriptor that it gave, a
-- rename and a removal change what a path holds; and a rename replaces its target whole or not at all.
pub record IsLawful (fs : FileSystem) (disk : Disk fs) : Type 0 where
  pub lstat_keeps : (p q : Text) (w : fs.World) → disk.content (fs.lstat p w).1 q ≡ disk.content w q
  pub mkdir_keeps : (p q : Text) (w : fs.World) → disk.content (fs.mkdir p w).1 q ≡ disk.content w q
  pub fsync_keeps :
      (d : ℕ) (q : Text) (w : fs.World) → disk.content (fs.fsync d w).1 q ≡ disk.content w q
  pub close_keeps :
      (d : ℕ) (q : Text) (w : fs.World) → disk.content (fs.close d w).1 q ≡ disk.content w q
  pub read_keeps :
      (p q : Text) (w : fs.World) → disk.content (fs.open_file p reading w).1 q ≡ disk.content w q
  pub open_keeps :
      (p q : Text) (w : fs.World)
      → q ≢ p
      → disk.content (fs.open_file p exclusive w).1 q ≡ disk.content w q
  pub open_opens :
      (p : Text) (w : fs.World) (d : ℕ) (w' : fs.World)
      → fs.open_file p exclusive w ≡ (ok d, w')
      → disk.opened w' d ≡ some p
  pub write_keeps :
      (d : ℕ) (t p q : Text) (w : fs.World)
      → disk.opened w d ≡ some p
      → q ≢ p
      → disk.content (fs.write_file d t w).1 q ≡ disk.content w q
  pub write_writes :
      (d : ℕ) (t p : Text) (w w' : fs.World)
      → disk.opened w d ≡ some p
      → fs.write_file d t w ≡ (ok tt, w')
      → disk.content w' p ≡ some t
  pub rename_moves :
      (p q : Text) (w w' : fs.World)
      → fs.rename p q w ≡ (ok tt, w')
      → disk.content w' q ≡ disk.content w p
  pub rename_fails :
      (p q : Text) (w w' : fs.World) (e : Failure)
      → fs.rename p q w ≡ (err e, w')
      → disk.content w' q ≡ disk.content w q
  pub rm_keeps :
      (p q : Text) (w : fs.World) → q ≢ p → disk.content (fs.rm p w).1 q ≡ disk.content w q
  pub exists_content :
      (p t : Text) (w : fs.World) → disk.content w p ≡ some t → fs.exists p w ≡ true
  -- A read that returns gives what the file holds.
  pub read_content :
      (p s : Text) (w w' : fs.World) → fs.read_file p w ≡ (ok s, w') → disk.content w p ≡ some s
  -- What a read throws is the system's error.
  pub read_fails :
      (p : Text) (w w' : fs.World) (e : Failure)
      → fs.read_file p w ≡ (err e, w')
      → (message : Text) × (e ≡ system message)
  pub lstat_fails :
      (p : Text) (w w' : fs.World) (e : Failure)
      → fs.lstat p w ≡ (err e, w')
      → (message : Text) × (e ≡ system message)
