-- ===== src/Outbox/File/Persist/Atomic.antt =====
-- Whatever fails, the outbox file holds the old document or the whole new one.
use openwebui_gjc_adapter.Outbox.File.Monad.{Failure, ◌>>=◌, finally, after_cleanup}
use openwebui_gjc_adapter.Outbox.File.Persist.{
  FileSystem, Node, exclusive, Progress, assert_directory, fsync_directory, write_temporary,
  replace_file, close_open, rm_unless, cleanup, check_existing, persist, lift, set_descriptor,
  temp_path_of, run_progress,
}
use openwebui_gjc_adapter.Outbox.File.Persist.Keeps.{
  then_do_cases, Keeps-at, assert_directory-Keeps, check_existing-Keeps, fsync_directory-Keeps,
}
use openwebui_gjc_adapter.Outbox.File.Persist.Disk.{Disk, IsLawful}
use openwebui_gjc_adapter.Metadata.{Runtime, Readings}
use openwebui_gjc_adapter.Prelude.{
  ◌≡◌, ◌≢◌, refl, subst, ap, ◌∙◌, ◌⊎◌, inl, inr, ℕ, Bool, true, false, Option, none, some, Text,
  Result, ok, err,
}

module _ (fs : FileSystem) (disk : Disk fs) (law : IsLawful fs disk) (temp file : Text)
    (apart : file ≢ temp) (old : Option Text) (text : Text) where
  -- The outbox file holds the new text, or also what it held before if an error was thrown.
  Ends : Result Failure (Unit {0}) × fs.World → Type 0
  Ends (ok u, w) = disk.content w file ≡ some text
  Ends (err e, w) = (disk.content w file ≡ old) ⊎ (disk.content w file ≡ some text)

  -- The temporary file holds the new text if it was written, and the outbox file what it held.
  IsWritten : Result Failure (Unit {0}) × Progress fs.World → Type 0
  IsWritten (ok u, p) = (disk.content p.world file ≡ old) × (disk.content p.world temp ≡ some text)
  IsWritten (err e, p) = disk.content p.world file ≡ old

  abbrev world_of :
      Result Failure (Unit {0}) × Progress fs.World → Result Failure (Unit {0}) × fs.World
  world_of (outcome, p) = (outcome, p.world)

  close-IsWritten :
      (d : ℕ) (p : Progress fs.World)
      → disk.content p.world file ≡ old
      → disk.content p.world temp ≡ some text
      → IsWritten (
          (lift (fs.fsync d) >>= λ (_ : Unit {0}).
          lift (fs.close d) >>= λ (_ : Unit {0}). set_descriptor none)
            p)
  unfolding IsWritten
  close-IsWritten d p o t =
      then_do_cases IsWritten _ (lift (fs.fsync d) p)
        (λ e p1 r. cc (ap (λ x. x.1.world) r, law.fsync_keeps d file p.world, o))
        (λ _ p1 r.
          then_do_cases IsWritten _ (lift (fs.close d) p1)
            (λ e p2 r2. cc (
              ap (λ x. x.1.world) r,
              ap (λ x. x.1.world) r2,
              law.fsync_keeps d file p.world,
              law.close_keeps d file p1.world,
              o,
            ))
            (λ _ p2 r2. (
              cc (
                ap (λ x. x.1.world) r,
                ap (λ x. x.1.world) r2,
                law.fsync_keeps d file p.world,
                law.close_keeps d file p1.world,
                o,
              ),
              cc (
                ap (λ x. x.1.world) r,
                ap (λ x. x.1.world) r2,
                law.fsync_keeps d temp p.world,
                law.close_keeps d temp p1.world,
                t,
              ),
            )))

  write_temporary-IsWritten :
      (p : Progress fs.World)
      → disk.content p.world file ≡ old
      → IsWritten (write_temporary fs temp text p)
  unfolding write_temporary
  write_temporary-IsWritten p o =
      then_do_cases IsWritten _ (lift (fs.open_file temp exclusive) p)
        (λ e p1 r.
          unfold IsWritten in cc (ap (λ x. x.1.world) r, law.open_keeps temp file p.world apart, o))
        (λ d p1 r.
          let opened = law.open_opens temp p.world d p1.world (λ i. ((r i).0, (r i).1.world)) in
          let held : disk.content p1.world file ≡ old =
            cc (ap (λ x. x.1.world) r, law.open_keeps temp file p.world apart, o) in
          let p1' : Progress fs.World = record p1 { descriptor = some d } in
          then_do_cases IsWritten _ (lift (fs.write_file d text) p1')
            (λ e p2 r2.
              unfold IsWritten in
              cc (
                ap (λ x. x.1.world) r2,
                law.write_keeps d text temp file p1.world opened apart,
                held,
              ))
            (λ _ p2 r2.
              close-IsWritten d p2
                (cc (
                  ap (λ x. x.1.world) r2,
                  law.write_keeps d text temp file p1.world opened apart,
                  held,
                ))
                (law.write_writes d text temp p1.world p2.world opened
                  (λ i. ((r2 i).0, (r2 i).1.world)))))

  -- What replaces the file, seen from the world.
  EndsIn : Result Failure (Unit {0}) × Progress fs.World → Type 0
  unfolding Ends
  EndsIn x = Ends (x.0, x.1.world)

  Ends-new : (x : Result Failure (Unit {0}) × fs.World) → disk.content x.1 file ≡ some text → Ends x
  unfolding Ends
  Ends-new (ok u, w) h = h
  Ends-new (err e, w) h = inr h

  IsWritten-ok :
      (p : Progress fs.World)
      → IsWritten (ok tt, p)
      → (disk.content p.world file ≡ old) × (disk.content p.world temp ≡ some text)
  unfolding IsWritten
  IsWritten-ok p h = h

  IsWritten-err :
      (e : Failure) (p : Progress fs.World) → IsWritten (err e, p) → disk.content p.world file ≡ old
  unfolding IsWritten
  IsWritten-err e p h = h

  Ends-moves :
      (outcome : Result Failure (Unit {0})) (v w : fs.World)
      → disk.content w file ≡ disk.content v file
      → Ends (outcome, v)
      → Ends (outcome, w)
  unfolding Ends
  Ends-moves (ok u) v w k h = k ∙ h
  Ends-moves (err e) v w k (inl h) = inl (k ∙ h)
  Ends-moves (err e) v w k (inr h) = inr (k ∙ h)

  Ends-old : (e : Failure) (w : fs.World) → disk.content w file ≡ old → Ends (err e, w)
  unfolding Ends
  Ends-old e w h = inl h

  replace_file-Ends :
      (directory : Text) (p : Progress fs.World)
      → disk.content p.world file ≡ old
      → EndsIn (replace_file fs directory temp file text p)
  unfolding replace_file EndsIn
  replace_file-Ends directory p o =
      let written = write_temporary-IsWritten p o in
      then_do_cases EndsIn _ (write_temporary fs temp text p)
        (λ e p1 r. Ends-old e p1.world (IsWritten-err e p1 (subst IsWritten r written)))
        (λ _ p1 r.
          let held = IsWritten-ok p1 (subst IsWritten r written) in
          then_do_cases EndsIn _ (lift (fs.rename temp file) p1)
            (λ e p2 r2. Ends-old e p2.world (
              law.rename_fails temp file p1.world p2.world e (λ i. ((r2 i).0, (r2 i).1.world))
              ∙ held.0))
            (λ _ p2 r2. Ends-new (fsync_directory fs directory p2.world) (
              Keeps-at fs disk law file _ (fsync_directory-Keeps fs disk law file directory)
                p2.world
              ∙ law.rename_moves temp file p1.world p2.world (λ i. ((r2 i).0, (r2 i).1.world))
              ∙ held.1)))

  close_open_keeps :
      (d : Option ℕ) (p : Progress fs.World)
      → disk.content (close_open fs d p).1.world file ≡ disk.content p.world file
  unfolding close_open
  close_open_keeps none p = refl
  close_open_keeps (some d) p = law.close_keeps d file p.world

  rm_unless_keeps :
      (b : Bool) (p : Progress fs.World)
      → disk.content (rm_unless fs b temp p).1.world file ≡ disk.content p.world file
  unfolding rm_unless
  rm_unless_keeps true p = refl
  rm_unless_keeps false p = law.rm_keeps temp file p.world apart

  cleanup_keeps :
      (p : Progress fs.World)
      → disk.content (cleanup fs temp p).1.world file ≡ disk.content p.world file
  unfolding cleanup
  cleanup_keeps p =
      let closed = close_open_keeps p.descriptor p in
      then_do_cases (λ x. disk.content x.1.world file ≡ disk.content p.world file) _
        (close_open fs p.descriptor p) (λ e q r. cc (ap (λ x. x.1.world) r, closed))
        (λ _ q r. rm_unless_keeps q.renamed q ∙ cc (ap (λ x. x.1.world) r, closed))

  Ends-thrown :
      (outcome : Result Failure (Unit {0})) (e : Failure) (w : fs.World)
      → Ends (outcome, w)
      → Ends (err e, w)
  unfolding Ends
  Ends-thrown (ok u) e w h = inr h
  Ends-thrown (err f) e w h = h

  after_cleanup-Ends :
      (outcome : Result Failure (Unit {0})) (w : fs.World)
      (x : Result Failure (Unit {0}) × Progress fs.World)
      → Ends (outcome, w)
      → disk.content x.1.world file ≡ disk.content w file
      → EndsIn (after_cleanup outcome x)
  unfolding EndsIn
  after_cleanup-Ends outcome w (ok u, p) h k = Ends-moves outcome w p.world k h
  after_cleanup-Ends outcome w (err e, p) h k =
      Ends-thrown outcome e p.world (Ends-moves outcome w p.world k h)

  replaced-Ends :
      (directory : Text) (w : fs.World)
      → disk.content w file ≡ old
      → Ends
          (run_progress fs (finally (replace_file fs directory temp file text) (cleanup fs temp)) w)
  unfolding EndsIn
  replaced-Ends directory w o =
      let p : Progress fs.World = record { descriptor = none; renamed = false; world = w } in
      let x = replace_file fs directory temp file text p in
      after_cleanup-Ends x.0 x.1.world (cleanup fs temp x.1) (replace_file-Ends directory p o)
        (cleanup_keeps x.1)

  -- The checks before the `try` keep the file.
  checked-Ends :
      (directory : Text) (w : fs.World)
      → disk.content w file ≡ old
      → Ends (
          (fs.mkdir directory >>= λ (_ : Unit {0}).
          assert_directory fs directory >>= λ (_ : Unit {0}).
          check_existing fs file >>= λ (_ : Unit {0}).
          run_progress fs (finally (replace_file fs directory temp file text) (cleanup fs temp)))
            w)
  checked-Ends directory w o =
      then_do_cases Ends _ (fs.mkdir directory w)
        (λ e v r. Ends-old e v (cc (ap (λ x. x.1) r, law.mkdir_keeps directory file w, o)))
        (λ _ v r.
          let o1 : disk.content v file ≡ old =
            cc (ap (λ x. x.1) r, law.mkdir_keeps directory file w, o) in
          let k1 =
            Keeps-at fs disk law file _ (assert_directory-Keeps fs disk law file directory) v in
          then_do_cases Ends _ (assert_directory fs directory v)
            (λ e v2 r2. Ends-old e v2 (cc (ap (λ x. x.1) r2, k1, o1)))
            (λ _ v2 r2.
              let o2 : disk.content v2 file ≡ old = cc (ap (λ x. x.1) r2, k1, o1) in
              let k2 =
                Keeps-at fs disk law file _ (check_existing-Keeps fs disk law file file) v2 in
              then_do_cases Ends _ (check_existing fs file v2)
                (λ e v3 r3. Ends-old e v3 (cc (ap (λ x. x.1) r3, k2, o2)))
                (λ _ v3 r3. replaced-Ends directory v3 (cc (ap (λ x. x.1) r3, k2, o2)))))

  Ends-cases :
      (x : Result Failure (Unit {0}) × fs.World)
      → Ends x
      → ((disk.content x.1 file ≡ old) ⊎ (disk.content x.1 file ≡ some text))
        × (x.0 ≡ ok tt → disk.content x.1 file ≡ some text)
  unfolding Ends
  Ends-cases (ok u, w) h = (inr h, λ r. h)
  Ends-cases (err e, w) h = (h, λ r. cc r)

-- On a lawful file system, where the temporary file is another file, whichever calls fail, a write
-- of the outbox leaves in its file what was there or the whole new text, and the new text if it
-- returns.
pub persist-atomic :
    (fs : FileSystem) (disk : Disk fs) (law : IsLawful fs disk) (node : Node) (rt : Runtime)
    (r : Readings) (file text : Text) (w : fs.World)
    → file ≢ temp_path_of node rt r (node.dirname file)
    → ((disk.content (persist fs node rt r file text w).1 file ≡ disk.content w file)
        ⊎ (disk.content (persist fs node rt r file text w).1 file ≡ some text))
      × ((persist fs node rt r file text w).0 ≡ ok tt
          → disk.content (persist fs node rt r file text w).1 file ≡ some text)
unfolding persist
persist-atomic fs disk law node rt r file text w apart =
    let temp = temp_path_of node rt r (node.dirname file) in
    Ends-cases fs disk law temp file apart (disk.content w file) text
      (persist fs node rt r file text w)
      (checked-Ends fs disk law temp file apart (disk.content w file) text (node.dirname file) w
        refl)
