-- ===== src/Json/Spool/Digest.antt =====
-- The hash is that of the whole text, whether or not it goes through the file.
use mathlib.Core.List.{append_assoc, append-nil}
use openwebui_gjc_adapter.Metadata.{decimal}
use openwebui_gjc_adapter.Json.Spool.{
  Disk, Hasher, Failure, reading, take, drop, moved, Spooled, Production, produce, read_all,
  concat_bytes, hashed_bytes, hash_canonical_stream,
}
use openwebui_gjc_adapter.Json.Spool.Writes.{
  IsLawful, IsFault, >>=_cases, moved-eq-ok, reading-IsFault, take-append-drop, length-drop,
}
use openwebui_gjc_adapter.Json.Spool.Chunks.{
  Held, Produced-ok, Produces-err, produce-Produces, total_units,
}
use openwebui_gjc_adapter.Prelude.{
  ◌≡◌, refl, sym, ap, ◌∙◌, subst, ℕ, zero, suc, ◌+◌, ◌<◌, List, [], ◌∷◌, ◌++◌, Option, none, some,
  Text, inl, inr, Result, ok, err, arith, length, ◌==◌, if◌then◌else◌, Bool-cases, ==_iff,
}

module _ (disk : Disk) (law : IsLawful disk) (hasher : Hasher) where
  -- What was read, or a call that failed.
  Read : List ℕ → Result Failure (List ℕ) → Type 0
  Read bytes (ok found) = found ≡ bytes
  Read bytes (err e) = IsFault disk e

  Read-thrown : (bytes : List ℕ) (e : Failure) → IsFault disk e → Read bytes (err e)
  unfolding Read
  Read-thrown bytes e h = h

  Read-eq : (r : Result Failure (List ℕ)) {b c : List ℕ} → b ≡ c → Read b r → Read c r
  Read-eq r same w = subst (λ bytes. Read bytes r) same w

  Read-ok :
      (bytes : List ℕ) (r : Result Failure (List ℕ)) (found : List ℕ)
      → r ≡ ok found
      → Read bytes r
      → found ≡ bytes
  unfolding Read
  Read-ok bytes r found h w = subst (Read bytes) h w

  Read-err :
      (bytes : List ℕ) (r : Result Failure (List ℕ)) (e : Failure)
      → r ≡ err e
      → Read bytes r
      → IsFault disk e
  unfolding Read
  Read-err bytes r e h w = subst (Read bytes) h w

  done_units :
      (p : Production) (chunks : List Text)
      → p.units ≡ 0 + total_units chunks
      → p.units ≡ total_units chunks
  done_units p chunks h = omega (arith, h)

  nil_of_length : (rest : List ℕ) → length rest ≡ 0 → rest ≡ []
  nil_of_length [] h = refl
  nil_of_length (b ∷ rest) h = absurd (omega (arith, h))

  Read-step :
      (fuel calls n : ℕ) (rest hashed : List ℕ)
      → disk.give calls (length rest) ≡ ok n
      → (0 < n
          → Read
              ((hashed ++ take n rest) ++ drop n rest)
              (read_all disk fuel (calls + 1) (drop n rest) (hashed ++ take n rest)))
      → Read (hashed ++ rest) (
          if n == 0
          then ok hashed
          else read_all disk fuel (calls + 1) (drop n rest) (hashed ++ take n rest))
  Read-step fuel calls n rest hashed gave more = elim (Bool-cases (n == 0)) [
    | inl done ↦ rw done (
        unfold Read in
        sym (
          ap (λ (r : List ℕ). hashed ++ r)
            (nil_of_length rest (law.ends calls (length rest) (cc (gave, (==_iff n 0).0 done))))
          ∙ append-nil hashed))
    | inr going ↦ rw going (
        Read-eq _
          (append_assoc hashed (take n rest) (drop n rest)
            ∙ ap (λ (r : List ℕ). hashed ++ r) (take-append-drop n rest))
          (more (ground arith)))
  ]

  read_all-Read :
      (fuel calls : ℕ) (rest hashed : List ℕ)
      → length rest < fuel
      → Read (hashed ++ rest) (read_all disk fuel calls rest hashed)
  unfolding read_all
  read_all-Read zero calls rest hashed h = absurd (omega (arith, h))
  read_all-Read (suc fuel) calls rest hashed h =
      >>=_cases (Read (hashed ++ rest)) (moved reading (disk.give calls (length rest))) _
        (λ e thrown. Read-thrown _ e (reading-IsFault disk law hasher calls (length rest) e thrown))
        (λ n gave.
          let given = moved-eq-ok reading _ n gave in
          Read-step fuel calls n rest hashed given (λ positive.
            read_all-Read fuel (calls + 1) (drop n rest) (hashed ++ take n rest) (
              omega (arith, positive, length-drop n rest (law.gives calls (length rest) n given)))))

  hashed_bytes-Read :
      (chunks : List Text) (spool : Option Spooled) (bytes : List ℕ)
      → Held disk law hasher bytes chunks spool
      → Read bytes (hashed_bytes disk hasher spool chunks)
  unfolding hashed_bytes Held
  hashed_bytes-Read chunks none bytes h = unfold Read in h
  hashed_bytes-Read chunks (some s) bytes h =
      Read-eq (read_all disk (length s.bytes + 1) 0 s.bytes []) h
        (read_all-Read (length s.bytes + 1) 0 s.bytes [] (omega arith))

  -- The digest of the length in units, the bytes of the chunks and the end.
  abbrev pub digest : List Text → Text
  digest chunks = hasher.sha256_hex (
      hasher.utf8 (decimal (total_units chunks) ++ (b':' ∷ []))
      ++ (concat_bytes hasher chunks ++ hasher.utf8 (b';' ∷ [])))

  abbrev pub Hashes : List Text → Result Failure Text → Type 0
  Hashes chunks (ok text) = text ≡ digest chunks
  Hashes chunks (err e) = IsFault disk e

  -- On a disk whose calls are lawful and whose spool can be opened for reading, for a producer
  -- that does not throw, the hash is the digest of the number of units of all chunks and of the
  -- encodings of the chunks, one after the other, whether they stay in memory or go through the
  -- file in short writes and reads; it throws only where a call of the disk has failed. How a
  -- chunk is encoded is a parameter.
  pub hash_canonical_stream-Hashes :
      (chunks : List Text) → Hashes chunks (hash_canonical_stream disk hasher chunks)
  unfolding hash_canonical_stream
  hash_canonical_stream-Hashes chunks =
      let start : Production = record {
        memory_chunks = [];
        memory_bytes = 0;
        spool = none;
        units = 0;
      } in
      let all =
        produce-Produces disk law hasher chunks start [] (unfold Held concat_bytes in refl) in
      >>=_cases (Hashes chunks) (produce disk hasher chunks start) _
        (λ e thrown. Produces-err disk law hasher _ _ _ e thrown all)
        (λ p made.
          let done = Produced-ok disk law hasher _ _ _ p made all in
          let read =
            hashed_bytes-Read p.memory_chunks p.spool (concat_bytes hasher chunks) done.held in
          >>=_cases (Hashes chunks) (hashed_bytes disk hasher p.spool p.memory_chunks) _
            (λ e thrown. Read-err _ _ e thrown read)
            (λ bytes found. cc (done_units p chunks done.counted, Read-ok _ _ bytes found read)))
