-- ===== src/Outbox/File/Persist/Keeps.antt =====
-- The steps that leave the files as they are.
use openwebui_gjc_adapter.Outbox.File.Monad.{
  Action, Failure, then_do, ◌>>=◌, pure, raise, after_cleanup, not_regular, not_directory,
}
use openwebui_gjc_adapter.Outbox.File.Persist.{
  FileSystem, Stat, reading, assert_regular_file, assert_directory, fsync_directory, check_existing,
}
use openwebui_gjc_adapter.Outbox.File.Persist.Disk.{Disk, IsLawful}
use openwebui_gjc_adapter.Prelude.{
  ◌≡◌, refl, ap, ◌∙◌, Bool, true, false, not, ◌||◌, Text, Result, ok, err, if◌then◌else◌,
}

-- To reason on each outcome of a step.
pub then_do_cases :
    {S A B : Type 0} (Q : Result Failure B × S → Type 0) (f : A → Action S B)
    (x : Result Failure A × S)
    → ((e : Failure) (t : S) → x ≡ (err e, t) → Q (err e, t))
    → ((a : A) (t : S) → x ≡ (ok a, t) → Q (f a t))
    → Q (then_do f x)
then_do_cases Q f (ok a, t) thrown returned = returned a t refl
then_do_cases Q f (err e, t) thrown returned = thrown e t refl

pub after_cleanup_state :
    {S A : Type 0} (outcome : Result Failure A) (x : Result Failure (Unit {0}) × S)
    → (after_cleanup outcome x).1 ≡ x.1
after_cleanup_state outcome (ok u, s) = refl
after_cleanup_state outcome (err e, s) = refl

module _ (fs : FileSystem) (disk : Disk fs) (law : IsLawful fs disk) where
  -- The step keeps what a path holds.
  unfoldable pub Keeps : {A : Type 0} → Text → Action fs.World A → Type 0
  Keeps q m = (w : fs.World) → disk.content (m w).1 q ≡ disk.content w q

  pure-Keeps : {A : Type 0} (q : Text) (a : A) → Keeps q (pure {S = fs.World} a)
  unfolding Keeps
  pure-Keeps q a w = refl

  raise-Keeps : (A : Type 0) (q : Text) (e : Failure) → Keeps {A = A} q (raise {S = fs.World} e)
  unfolding Keeps
  raise-Keeps A q a w = refl

  pub Keeps-of :
      {A : Type 0} (q : Text) (m : Action fs.World A)
      → ((w : fs.World) → disk.content (m w).1 q ≡ disk.content w q)
      → Keeps q m
  unfolding Keeps
  Keeps-of q m h = h

  pub Keeps-at :
      {A : Type 0} (q : Text) (m : Action fs.World A)
      → Keeps q m
      → (w : fs.World) → disk.content (m w).1 q ≡ disk.content w q
  unfolding Keeps
  Keeps-at q m h = h

  pub >>=-Keeps :
      {A B : Type 0} (q : Text) (m : Action fs.World A) (f : A → Action fs.World B)
      → Keeps q m
      → ((a : A) → Keeps q (f a))
      → Keeps q (m >>= f)
  unfolding Keeps
  >>=-Keeps q m f h k w =
      then_do_cases (λ x. disk.content x.1 q ≡ disk.content w q) f (m w)
        (λ e t r. cc (ap (λ x. x.1) r, h w)) (λ a t r. k a t ∙ cc (ap (λ x. x.1) r, h w))

  if-Keeps :
      {A : Type 0} (q : Text) (b : Bool) (m n : Action fs.World A)
      → Keeps q m
      → Keeps q n
      → Keeps q (if b then m else n)
  if-Keeps q true m n h k = h
  if-Keeps q false m n h k = k

  -- A check of what is at a path.
  check-Keeps :
      (q path : Text) (bad : Stat → Bool) (e : Failure)
      → Keeps q (fs.lstat path >>= λ stat. if bad stat then raise e else pure tt)
  check-Keeps q path bad e =
      >>=-Keeps q (fs.lstat path) _ (Keeps-of q _ (law.lstat_keeps path q))
        (λ stat. if-Keeps q (bad stat) _ _ (raise-Keeps _ q e) (pure-Keeps q tt))

  pub assert_regular_file-Keeps : (q path : Text) → Keeps q (assert_regular_file fs path)
  unfolding assert_regular_file
  assert_regular_file-Keeps q path =
      check-Keeps q path (λ stat. stat.is_symbolic_link || not stat.is_file) (not_regular path)

  pub assert_directory-Keeps : (q path : Text) → Keeps q (assert_directory fs path)
  unfolding assert_directory
  assert_directory-Keeps q path =
      check-Keeps q path (λ stat. stat.is_symbolic_link || not stat.is_directory)
        (not_directory path)

  pub check_existing-Keeps : (q path : Text) → Keeps q (check_existing fs path)
  unfolding check_existing Keeps
  check_existing-Keeps q path w =
      if-Keeps q (fs.exists path w) _ _ (assert_regular_file-Keeps q path) (pure-Keeps q tt) w

  pub fsync_directory-Keeps : (q path : Text) → Keeps q (fsync_directory fs path)
  unfolding fsync_directory
  fsync_directory-Keeps q path =
      >>=-Keeps q (fs.open_file path reading) _ (Keeps-of q _ (law.read_keeps path q)) (λ d.
        Keeps-of q _ (λ w.
          ap (λ v. disk.content v q)
            (after_cleanup_state (fs.fsync d w).0 (fs.close d (fs.fsync d w).1))
          ∙ law.close_keeps d q (fs.fsync d w).1
          ∙ law.fsync_keeps d q w))
