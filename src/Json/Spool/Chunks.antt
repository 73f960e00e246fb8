-- ===== src/Json/Spool/Chunks.antt =====
-- The chunks that were handed over are in memory or in the spool.
use mathlib.Core.List.{append_assoc, append-nil}
use openwebui_gjc_adapter.Json.Spool.{
  Disk, Hasher, Failure, creating, Spooled, write_bytes, write_chunks, Production, created, spill,
  take_chunk, produce, concat_bytes,
}
use openwebui_gjc_adapter.Prelude.{
  ◌≡◌, refl, sym, ap, ◌∙◌, subst, inl, inr, ℕ, ◌+◌, List, [], ◌∷◌, ◌++◌, Option, none, some, Text,
  Result, ok, err, arith, length, leb, Bool-cases,
}
use openwebui_gjc_adapter.Json.Spool.Writes.{
  IsLawful, IsFault, >>=_cases, Wrote-ok, Wrote-err, write_bytes-Wrote, write_chunks-Wrote,
}

-- `length`, the sum of the lengths of the chunks
abbrev pub total_units : List Text → ℕ
total_units [] = 0
total_units (chunk ∷ chunks) = length chunk + total_units chunks

module _ (disk : Disk) (law : IsLawful disk) (hasher : Hasher) where
  -- The chunks so far are in memory, or their bytes are in the spool.
  unfoldable pub Held : List ℕ → List Text → Option Spooled → Type 0
  Held bytes chunks none = concat_bytes hasher chunks ≡ bytes
  Held bytes chunks (some s) = s.bytes ≡ bytes

  pub record Produced (bytes : List ℕ) (units : ℕ) (p : Production) : Type 0 where
    pub held : Held bytes p.memory_chunks p.spool
    pub counted : p.units ≡ units

  unfoldable pub Produces : List ℕ → ℕ → Result Failure Production → Type 0
  Produces bytes units (ok p) = Produced bytes units p
  Produces bytes units (err e) = IsFault disk e

  concat_bytes-snoc :
      (chunks : List Text) (chunk : Text)
      → concat_bytes hasher (chunks ++ (chunk ∷ []))
        ≡ concat_bytes hasher chunks ++ hasher.utf8 chunk
  unfolding concat_bytes
  concat_bytes-snoc [] chunk = append-nil (hasher.utf8 chunk)
  concat_bytes-snoc (c ∷ chunks) chunk = simp (concat_bytes-snoc chunks chunk, append_assoc)

  Produces-thrown :
      (bytes : List ℕ) (units : ℕ) (e : Failure) → IsFault disk e → Produces bytes units (err e)
  unfolding Produces
  Produces-thrown bytes units e h = h

  created-IsFault :
      (r : Result Text (Unit {0})) (e : Failure)
      → r ≡ disk.create
      → created r ≡ err e
      → IsFault disk e
  unfolding created IsFault
  created-IsFault (ok u) e same h = cc h
  created-IsFault (err message) e same h =
      subst (IsFault disk) {x = creating message} {y = e} (cc h) (sym same)

  -- A production whose spool was written.
  spooled-Produced :
      (bytes : List ℕ) (p : Production) (chunks : List Text) (s : Spooled)
      → s.bytes ≡ bytes
      → Produces bytes p.units (ok (record p { memory_chunks = chunks; spool = some s }))
  unfolding Produces Held
  spooled-Produced bytes p chunks s h = record { held = h; counted = refl }

  spill-Produces :
      (chunk : Text) (p : Production) (bytes : List ℕ)
      → concat_bytes hasher p.memory_chunks ≡ bytes
      → Produces (bytes ++ hasher.utf8 chunk) p.units (spill disk hasher chunk p)
  unfolding spill
  spill-Produces chunk p bytes h =
      let fresh : Spooled = record { bytes = []; calls = 0 } in
      let w = write_chunks-Wrote disk law hasher p.memory_chunks fresh in
      >>=_cases (Produces (bytes ++ hasher.utf8 chunk) p.units) _ _
        (λ e thrown. Produces-thrown _ _ e (created-IsFault disk.create e refl thrown))
        (λ _ made.
          >>=_cases (Produces (bytes ++ hasher.utf8 chunk) p.units)
            (write_chunks disk hasher p.memory_chunks fresh) _
            (λ e thrown. Produces-thrown _ _ e (Wrote-err disk law hasher _ _ e thrown w))
            (λ s wrote.
              let w' = write_bytes-Wrote disk law hasher (hasher.utf8 chunk) s in
              >>=_cases (Produces (bytes ++ hasher.utf8 chunk) p.units)
                (write_bytes disk (hasher.utf8 chunk) s) _
                (λ e thrown. Produces-thrown _ _ e (Wrote-err disk law hasher _ _ e thrown w'))
                (λ s' wrote'. spooled-Produced _ p [] s' (
                  Wrote-ok disk law hasher _ _ s' wrote' w'
                  ∙ ap (λ (r : List ℕ). r ++ hasher.utf8 chunk)
                      (Wrote-ok disk law hasher _ _ s wrote w ∙ h)))))

  take_chunk-Produces :
      (chunk : Text) (spool : Option Spooled) (p : Production) (bytes : List ℕ)
      → p.spool ≡ spool
      → Held bytes p.memory_chunks spool
      → Produces (bytes ++ hasher.utf8 chunk) p.units (take_chunk disk hasher chunk spool p)
  unfolding take_chunk Held
  take_chunk-Produces chunk none p bytes e h =
      elim (Bool-cases (leb (p.memory_bytes + length (hasher.utf8 chunk)) 65536)) [
        | inl room ↦ rw room (
            unfold Produces in
            record {
              held =
                  subst
                    (λ (o : Option Spooled).
                      Held (bytes ++ hasher.utf8 chunk) (p.memory_chunks ++ (chunk ∷ [])) o)
                    (sym e)
                    (concat_bytes-snoc p.memory_chunks chunk
                      ∙ ap (λ (r : List ℕ). r ++ hasher.utf8 chunk) h);
              counted = refl;
            })
        | inr full ↦ rw full (spill-Produces chunk p bytes h)
      ]
  take_chunk-Produces chunk (some s) p bytes e h =
      let w = write_bytes-Wrote disk law hasher (hasher.utf8 chunk) s in
      >>=_cases (Produces (bytes ++ hasher.utf8 chunk) p.units)
        (write_bytes disk (hasher.utf8 chunk) s) _
        (λ e thrown. Produces-thrown _ _ e (Wrote-err disk law hasher _ _ e thrown w))
        (λ s' wrote.
          spooled-Produced _ p p.memory_chunks s' (
            Wrote-ok disk law hasher _ _ s' wrote w
            ∙ ap (λ (r : List ℕ). r ++ hasher.utf8 chunk) h))

  Produces-eq :
      (r : Result Failure Production) {b c : List ℕ} {m n : ℕ}
      → b ≡ c
      → m ≡ n
      → Produces b m r
      → Produces c n r
  Produces-eq r {b} {c} {m} {n} same equal w =
      subst (λ units. Produces c units r) equal (subst (λ bytes. Produces bytes m r) same w)

  pub Produced-ok :
      (bytes : List ℕ) (units : ℕ) (r : Result Failure Production) (p : Production)
      → r ≡ ok p
      → Produces bytes units r
      → Produced bytes units p
  unfolding Produces
  Produced-ok bytes units r p h w = subst (Produces bytes units) h w

  pub Produces-err :
      (bytes : List ℕ) (units : ℕ) (r : Result Failure Production) (e : Failure)
      → r ≡ err e
      → Produces bytes units r
      → IsFault disk e
  unfolding Produces
  Produces-err bytes units r e h w = subst (Produces bytes units) h w

  pub produce-Produces :
      (chunks : List Text) (p : Production) (bytes : List ℕ)
      → Held bytes p.memory_chunks p.spool
      → Produces
          (bytes ++ concat_bytes hasher chunks)
          (p.units + total_units chunks)
          (produce disk hasher chunks p)
  unfolding produce concat_bytes
  produce-Produces [] p bytes h =
      unfold Produces in
      record {
        held = subst (λ (bs : List ℕ). Held bs p.memory_chunks p.spool) (sym (append-nil bytes)) h;
        counted = omega arith;
      }
  produce-Produces (chunk ∷ chunks) p bytes h =
      let q : Production = record p { units = p.units + length chunk } in
      let t = take_chunk-Produces chunk p.spool q bytes refl h in
      >>=_cases
        (Produces (bytes ++ (hasher.utf8 chunk ++ concat_bytes hasher chunks))
          (p.units + (length chunk + total_units chunks)))
        (take_chunk disk hasher chunk p.spool q) _
        (λ e thrown. Produces-thrown _ _ e (Produces-err _ _ _ e thrown t))
        (λ q' taken.
          let made = Produced-ok _ _ _ q' taken t in
          Produces-eq (produce disk hasher chunks q')
            (append_assoc bytes (hasher.utf8 chunk) (concat_bytes hasher chunks))
            (omega (arith, made.counted))
            (produce-Produces chunks q' (bytes ++ hasher.utf8 chunk) made.held))
