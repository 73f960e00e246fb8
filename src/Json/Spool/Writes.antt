-- ===== src/Json/Spool/Writes.antt =====
-- The writes to the spool leave all the bytes there, or fail.
use mathlib.Core.List.{append_assoc, append-nil}
use openwebui_gjc_adapter.Json.Spool.{
  Disk, Hasher, Failure, creating, writing, reading, no_progress, out_of_fuel, take, drop, moved,
  Spooled, write_sync_all, write_bytes, write_chunks, concat_bytes,
}
use openwebui_gjc_adapter.Prelude.{
  ◌≡◌, refl, sym, ap, ◌∙◌, subst, ℕ, zero, suc, ◌+◌, ◌≤◌, ◌<◌, false, List, [], ◌∷◌, ◌++◌, Text,
  Result, ok, err, ◌>>=◌, ◌>>◌, throw_if, arith, length, ◌==◌,
}

-- What the operating system documents: a call moves no more than is there, and a read moves nothing
-- only at the end of the file.
pub record IsLawful (disk : Disk) : Type 0 where
  pub accepts : (k n m : ℕ) → disk.accept k n ≡ ok m → m ≤ n
  pub gives : (k n m : ℕ) → disk.give k n ≡ ok m → m ≤ n
  pub ends : (k n : ℕ) → disk.give k n ≡ ok 0 → n ≡ 0

-- A call of the disk that failed in the way that the error says.
unfoldable pub IsFault : Disk → Failure → Type 0
IsFault disk (creating message) = disk.create ≡ err message
IsFault disk (writing message) = (k : ℕ) × (n : ℕ) × (disk.accept k n ≡ err message)
IsFault disk (reading message) = (k : ℕ) × (n : ℕ) × (disk.give k n ≡ err message)
IsFault disk no_progress = (k : ℕ) × (n : ℕ) × (0 < n) × (disk.accept k n ≡ ok 0)
IsFault disk out_of_fuel = ⊥

pub take-append-drop : (n : ℕ) (bytes : List ℕ) → take n bytes ++ drop n bytes ≡ bytes
take-append-drop zero bytes = refl
take-append-drop (suc n) [] = refl
take-append-drop (suc n) (b ∷ bytes) = ap (λ r. b ∷ r) (take-append-drop n bytes)

pub length-drop-le : (n : ℕ) (bytes : List ℕ) → length (drop n bytes) + n ≤ length bytes + n
length-drop-le zero bytes = omega arith
length-drop-le (suc n) [] = omega arith
length-drop-le (suc n) (b ∷ bytes) = omega (arith, length-drop-le n bytes)

pub length-drop :
    (n : ℕ) (bytes : List ℕ) → n ≤ length bytes → length (drop n bytes) + n ≡ length bytes
length-drop zero bytes h = omega arith
length-drop (suc n) [] h = absurd (omega arith)
length-drop (suc n) (b ∷ bytes) h = omega (arith, length-drop n bytes)

suc-ne-zero : (n : ℕ) → (suc n == 0) ≡ false
suc-ne-zero n = ground arith

-- To reason on each outcome of a step.
pub >>=_cases :
    {A B : Type 0} (Q : Result Failure B → Type 0) (m : Result Failure A) (f : A → Result Failure B)
    → ((e : Failure) → m ≡ err e → Q (err e))
    → ((a : A) → m ≡ ok a → Q (f a))
    → Q (m >>= f)
>>=_cases Q (ok a) f thrown returned = returned a refl
>>=_cases Q (err e) f thrown returned = thrown e refl

pub moved-eq-err :
    (failure : Text → Failure) (r : Result Text ℕ) (e : Failure)
    → moved failure r ≡ err e
    → (message : Text) × (r ≡ err message) × (e ≡ failure message)
moved-eq-err failure (ok n) e h = cc h
moved-eq-err failure (err message) e h = (message, refl, cc h)

pub moved-eq-ok :
    (failure : Text → Failure) (r : Result Text ℕ) (n : ℕ) → moved failure r ≡ ok n → r ≡ ok n
moved-eq-ok failure (ok m) n h = cc h
moved-eq-ok failure (err message) n h = cc h

module _ (disk : Disk) (law : IsLawful disk) (hasher : Hasher) where
  -- The spool holds the bytes, or a call failed.
  unfoldable pub Wrote : List ℕ → Result Failure Spooled → Type 0
  Wrote bytes (ok s) = s.bytes ≡ bytes
  Wrote bytes (err e) = IsFault disk e

  writing-IsFault :
      (k n : ℕ) (e : Failure) → moved writing (disk.accept k n) ≡ err e → IsFault disk e
  unfolding IsFault
  writing-IsFault k n e h =
      let (message, thrown, same) = moved-eq-err writing (disk.accept k n) e h in
      subst (IsFault disk) (sym same) (k, n, thrown)

  pub reading-IsFault :
      (k n : ℕ) (e : Failure) → moved reading (disk.give k n) ≡ err e → IsFault disk e
  unfolding IsFault
  reading-IsFault k n e h =
      let (message, thrown, same) = moved-eq-err reading (disk.give k n) e h in
      subst (IsFault disk) (sym same) (k, n, thrown)

  pub Wrote-eq : (r : Result Failure Spooled) {b c : List ℕ} → b ≡ c → Wrote b r → Wrote c r
  Wrote-eq r same w = subst (λ bytes. Wrote bytes r) same w

  -- One write, from what the writes after it do.
  write_step :
      (fuel n b : ℕ) (rest : List ℕ) (s : Spooled)
      → disk.accept s.calls (length (b ∷ rest)) ≡ ok n
      → length (b ∷ rest) ≤ suc fuel
      → ((rest' : List ℕ) (s' : Spooled)
          → length rest' ≤ fuel
          → Wrote (s'.bytes ++ rest') (write_sync_all disk fuel rest' s'))
      → Wrote (s.bytes ++ (b ∷ rest)) (
          throw_if (n == 0) no_progress
          >> write_sync_all disk fuel
              (drop n (b ∷ rest))
              (record { bytes = s.bytes ++ take n (b ∷ rest); calls = s.calls + 1 }))
  write_step fuel zero b rest s a h ih =
      unfold Wrote IsFault in (s.calls, length (b ∷ rest), omega arith, a)
  write_step fuel (suc n) b rest s a h ih =
      let s' : Spooled = record { bytes = s.bytes ++ (b ∷ take n rest); calls = s.calls + 1 } in
      rw (suc-ne-zero n) (
        Wrote-eq (write_sync_all disk fuel (drop n rest) s')
          (append_assoc s.bytes (b ∷ take n rest) (drop n rest)
            ∙ ap (λ r. s.bytes ++ (b ∷ r)) (take-append-drop n rest))
          (ih (drop n rest) s' (omega (arith, length-drop-le n rest))))

  write_sync_all-Wrote :
      (fuel : ℕ) (rest : List ℕ) (s : Spooled)
      → length rest ≤ fuel
      → Wrote (s.bytes ++ rest) (write_sync_all disk fuel rest s)
  unfolding write_sync_all
  write_sync_all-Wrote fuel [] s h = unfold Wrote in sym (append-nil s.bytes)
  write_sync_all-Wrote zero (b ∷ rest) s h = absurd (omega arith)
  write_sync_all-Wrote (suc fuel) (b ∷ rest) s h =
      let r = moved writing (disk.accept s.calls (length (b ∷ rest))) in
      >>=_cases (Wrote (s.bytes ++ (b ∷ rest))) r _
        (λ e thrown. unfold Wrote in writing-IsFault s.calls (length (b ∷ rest)) e thrown)
        (λ n wrote.
          write_step fuel n b rest s (moved-eq-ok writing _ n wrote) h
            (λ rest' s' h'. write_sync_all-Wrote fuel rest' s' h'))

  pub write_bytes-Wrote :
      (bytes : List ℕ) (s : Spooled) → Wrote (s.bytes ++ bytes) (write_bytes disk bytes s)
  unfolding write_bytes
  write_bytes-Wrote bytes s = write_sync_all-Wrote (length bytes) bytes s (omega arith)

  pub Wrote-ok :
      (bytes : List ℕ) (r : Result Failure Spooled) (s : Spooled)
      → r ≡ ok s
      → Wrote bytes r
      → s.bytes ≡ bytes
  unfolding Wrote
  Wrote-ok bytes r s h w = subst (Wrote bytes) h w

  pub Wrote-err :
      (bytes : List ℕ) (r : Result Failure Spooled) (e : Failure)
      → r ≡ err e
      → Wrote bytes r
      → IsFault disk e
  unfolding Wrote
  Wrote-err bytes r e h w = subst (Wrote bytes) h w

  Wrote-thrown : (bytes : List ℕ) (e : Failure) → IsFault disk e → Wrote bytes (err e)
  unfolding Wrote
  Wrote-thrown bytes e h = h

  pub write_chunks-Wrote :
      (chunks : List Text) (s : Spooled)
      → Wrote (s.bytes ++ concat_bytes hasher chunks) (write_chunks disk hasher chunks s)
  unfolding write_chunks concat_bytes
  write_chunks-Wrote [] s = unfold Wrote in sym (append-nil s.bytes)
  write_chunks-Wrote (chunk ∷ chunks) s =
      let w = write_bytes-Wrote (hasher.utf8 chunk) s in
      >>=_cases (Wrote (s.bytes ++ (hasher.utf8 chunk ++ concat_bytes hasher chunks))) _ _
        (λ e thrown. Wrote-thrown _ e (Wrote-err _ _ e thrown w))
        (λ s' wrote.
          Wrote-eq (write_chunks disk hasher chunks s')
            (ap (λ (r : List ℕ). r ++ concat_bytes hasher chunks) (Wrote-ok _ _ s' wrote w)
              ∙ append_assoc s.bytes (hasher.utf8 chunk) (concat_bytes hasher chunks))
            (write_chunks-Wrote chunks s'))
