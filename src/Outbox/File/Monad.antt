-- ===== src/Outbox/File/Monad.antt =====
-- Code that throws and that calls the file system: what a call changed before it threw stays changed.
use openwebui_gjc_adapter.Outbox.{Error}
use openwebui_gjc_adapter.Outbox.Document
use openwebui_gjc_adapter.Prelude.{Text, Result, ok, err}

pub data Failure : Type 0 where
  -- the outbox's own error, and that of the check of a document
  rejected : Error → Failure
  unreadable : Document.Error → Failure
  not_regular : Text → Failure
  not_directory : Text → Failure
  -- what a call of the file system threw
  system : Text → Failure

abbrev pub Action : Type 0 → Type 0 → Type 0
Action S A = S → Result Failure A × S

abbrev pub pure : {S A : Type 0} → A → Action S A
pure a s = (ok a, s)

abbrev pub raise : {S A : Type 0} → Failure → Action S A
raise e s = (err e, s)

abbrev pub then_do :
    {S A B : Type 0} → (A → Action S B) → Result Failure A × S → Result Failure B × S
then_do f (ok a, s) = f a s
then_do f (err e, s) = (err e, s)

infixl 5 ◌>>=◌ ◌>>◌
abbrev pub ◌>>=◌ : {S A B : Type 0} → Action S A → (A → Action S B) → Action S B
◌>>=◌ m f s = then_do f (m s)

abbrev pub ◌>>◌ : {S B : Type 0} → Action S (Unit {0}) → Action S B → Action S B
m >> k = m >>= λ _. k

-- `try { body } finally { cleanup }`: an error of the cleanup takes the place of the body's outcome.
abbrev pub after_cleanup :
    {S A : Type 0} → Result Failure A → Result Failure (Unit {0}) × S → Result Failure A × S
after_cleanup outcome (ok _, s) = (outcome, s)
after_cleanup outcome (err e, s) = (err e, s)

abbrev pub finally : {S A : Type 0} → Action S A → Action S (Unit {0}) → Action S A
finally body cleanup s = let (outcome, t) = body s in after_cleanup outcome (cleanup t)

-- A step that needs no file system.
abbrev pub of_result : {S E A : Type 0} → (E → Failure) → Result E A → Action S A
of_result f (ok a) s = (ok a, s)
of_result f (err e) s = (err (f e), s)
