-- ===== src/Outbox/File/Persist.antt =====
-- How the outbox writes its file (src/state/file-outbox.ts: persist, fsyncDirectory and the checks of
-- paths): into a temporary file that then takes the place of the old one.

pub mod Disk
pub mod Keeps
pub mod Atomic
use openwebui_gjc_adapter.Outbox.Document.{Value}
use openwebui_gjc_adapter.Outbox.File.Monad.{
  Failure, Action, not_regular, not_directory, pure, raise, ◌>>=◌, ◌>>◌, finally,
}
use openwebui_gjc_adapter.Metadata.{Runtime, Readings, create_operation_id}
use openwebui_gjc_adapter.Prelude.{
  ℕ, Bool, true, false, not, ◌||◌, List, ◌∷◌, ◌++◌, Option, none, some, Text, codes, Result,
  if◌then◌else◌,
}

pub record Stat : Type 0 where
  pub is_symbolic_link : Bool
  pub is_file : Bool
  pub is_directory : Bool

-- The flags that files are opened with: `wx` and `r`.
pub data Flags : Type 0 where
  exclusive reading : Flags

-- The interface OutboxFileSystem, over the state of everything outside.
pub record FileSystem : Type 1 where
  pub World : Type 0
  pub exists : Text → World → Bool
  pub lstat : Text → Action World Stat
  pub mkdir : Text → Action World (Unit {0})
  pub open_file : Text → Flags → Action World ℕ
  pub read_file : Text → Action World Text
  pub write_file : ℕ → Text → Action World (Unit {0})
  pub fsync : ℕ → Action World (Unit {0})
  pub close : ℕ → Action World (Unit {0})
  pub rename : Text → Text → Action World (Unit {0})
  pub rm : Text → Action World (Unit {0})

-- `dirname` and `join` of Node's `path`, and `JSON.stringify(value, null, 2)`.
pub record Node : Type 0 where
  pub dirname : Text → Text
  pub join : Text → Text → Text
  pub stringify : Value → Text

-- What the `try` block has done so far: the descriptor that is open, and whether it renamed.
pub record Progress (W : Type 0) : Type 0 where
  pub descriptor : Option ℕ
  pub renamed : Bool
  pub world : W

abbrev lift : {W A : Type 0} → Action W A → Action (Progress W) A
lift m p = let (outcome, w) = m p.world in (outcome, record p { world = w })

abbrev set_descriptor : {W : Type 0} → Option ℕ → Action (Progress W) (Unit {0})
set_descriptor d p = pure tt (record p { descriptor = d })

abbrev set_renamed : {W : Type 0} → Action (Progress W) (Unit {0})
set_renamed p = pure tt (record p { renamed = true })

-- `join(directory, `.${createOperationId("outbox")}.tmp`)`
unfoldable pub temp_path_of : Node → Runtime → Readings → Text → Text
temp_path_of node rt r directory =
    node.join directory ((b'.' ∷ create_operation_id rt r (codes "outbox") none) ++ codes ".tmp")

module _ (fs : FileSystem) where
  open fs use {World, exists, lstat, mkdir, open_file, write_file, fsync, close, rename, rm}

  unfoldable pub assert_regular_file : Text → Action World (Unit {0})
  assert_regular_file path = do
    stat ← lstat path
    if stat.is_symbolic_link || not stat.is_file then raise (not_regular path) else pure tt

  pub assert_directory : Text → Action World (Unit {0})
  assert_directory path = do
    stat ← lstat path
    if stat.is_symbolic_link || not stat.is_directory then raise (not_directory path) else pure tt

  pub fsync_directory : Text → Action World (Unit {0})
  fsync_directory directory = do d ← open_file directory reading; finally (fsync d) (close d)

  write_temporary : Text → Text → Action (Progress World) (Unit {0})
  write_temporary temp_path text = do
    d ← lift (open_file temp_path exclusive)
    set_descriptor (some d)
    lift (write_file d text)
    lift (fsync d)
    lift (close d)
    set_descriptor none

  -- The `try` block.
  replace_file : Text → Text → Text → Text → Action (Progress World) (Unit {0})
  unfolding write_temporary fsync_directory
  replace_file directory temp_path file_path text = do
    write_temporary temp_path text
    lift (rename temp_path file_path)
    set_renamed
    lift (fsync_directory directory)

  close_open : Option ℕ → Action (Progress World) (Unit {0})
  close_open none = pure tt
  close_open (some d) = lift (close d)

  rm_unless : Bool → Text → Action (Progress World) (Unit {0})
  rm_unless true temp_path = pure tt
  rm_unless false temp_path = lift (rm temp_path)

  -- The `finally` block.
  cleanup : Text → Action (Progress World) (Unit {0})
  unfolding close_open rm_unless
  cleanup temp_path p =
      (close_open p.descriptor >> λ (q : Progress World). rm_unless q.renamed temp_path q) p

  abbrev run_progress : Action (Progress World) (Unit {0}) → Action World (Unit {0})
  run_progress m w =
      let (outcome, p) = m (record { descriptor = none; renamed = false; world = w }) in
      (outcome, p.world)

  pub check_existing : Text → Action World (Unit {0})
  unfolding assert_regular_file
  check_existing file_path w =
      (if exists file_path w then assert_regular_file file_path else pure tt) w

  unfoldable pub persist : Node → Runtime → Readings → Text → Text → Action World (Unit {0})
  unfolding assert_directory check_existing replace_file cleanup temp_path_of
  persist node rt r file_path text = do
    let directory = node.dirname file_path
    mkdir directory
    assert_directory directory
    check_existing file_path
    let temp_path = temp_path_of node rt r directory
    run_progress (finally (replace_file directory temp_path file_path text) (cleanup temp_path))
