-- ===== src/Outbox/File/Restart.antt =====
-- A new instance of the outbox reads what the last one wrote (src/state/file-outbox.ts: load).
use mathlib.Core.List.{append-nil, append_assoc}
use openwebui_gjc_adapter.Outbox.{Operation}
use openwebui_gjc_adapter.Outbox.Document.{Host, parse_persisted_outbox_document}
use openwebui_gjc_adapter.Outbox.Document.Written.{
  IsStorable, AreFresh, document_value, parse-written,
}
use openwebui_gjc_adapter.Outbox.File.{map_of, read_document, load}
use openwebui_gjc_adapter.Outbox.File.Monad.{
  Failure, unreadable, system, not_regular, raise, then_do, of_result, pure,
}
use openwebui_gjc_adapter.Outbox.File.Persist.{FileSystem, assert_regular_file}
use openwebui_gjc_adapter.Outbox.File.Persist.Keeps.{
  then_do_cases, Keeps-at, assert_regular_file-Keeps,
}
use openwebui_gjc_adapter.Outbox.File.Persist.Disk.{Disk, IsLawful}
use openwebui_gjc_adapter.Outbox.Memory.{Store}
use openwebui_gjc_adapter.Outbox.Memory.Invariant.{IsRow, IsWellFormed}
use openwebui_gjc_adapter.Prelude.{
  ◌≡◌, refl, sym, ◌∙◌, ap, subst, Bool, true, false, List, [], ◌∷◌, ◌++◌, none, some, Text, Result,
  ok, err, All, arith, contains, text_eq, text_eq_iff, if◌then◌else◌,
}
use openwebui_gjc_adapter.Prelude.Dict
use openwebui_gjc_adapter.Prelude.Dict.{Dict, Distinct}

-- A key that is not there is set at the end.
set_fresh :
    (k : Text) (o : Operation) (m : Store)
    → Dict.get k m ≡ none
    → Dict.set k o m ≡ m ++ ((k, o) ∷ [])
unfolding Dict.get Dict.set
set_fresh k o [] h = refl
set_fresh k o ((j, p) ∷ m) h = ground (arith, set_fresh k o m)

get_snoc :
    (k j : Text) (o : Operation) (m : Store)
    → Dict.get j m ≡ none
    → text_eq k j ≡ false
    → Dict.get j (m ++ ((k, o) ∷ [])) ≡ none
unfolding Dict.get
get_snoc k j o [] h n = rw n
get_snoc k j o ((i, p) ∷ m) h n = ground (arith, get_snoc k j o m)

-- The keys of `s` are not in `acc`.
abbrev Avoids : Store → Store → Type 0
Avoids acc s = All (λ e. Dict.get e.0 acc ≡ none) s

Avoids-snoc :
    (k : Text) (o : Operation) (acc s : Store)
    → Avoids acc s
    → Dict.get k s ≡ none
    → Avoids (acc ++ ((k, o) ∷ [])) s
unfolding Dict.get
Avoids-snoc k o acc [] a h = tt
Avoids-snoc k o acc ((j, p) ∷ s) a h = (
  get_snoc k j o acc a.0 (ground (arith, text_eq_iff k j, text_eq_iff j k)),
  Avoids-snoc k o acc s a.1 (ground arith),
)

map_of-values :
    (acc s : Store)
    → Distinct s
    → All IsRow s
    → Avoids acc s
    → map_of (Dict.values s) acc ≡ acc ++ s
unfolding map_of
map_of-values acc [] d r a = sym (append-nil acc)
map_of-values acc ((k, o) ∷ s) d r a =
    subst (λ (key : Text). map_of (Dict.values s) (Dict.set key o acc) ≡ acc ++ ((k, o) ∷ s))
      r.0.keyed
      (rw (set_fresh k o acc a.0) (
        map_of-values (acc ++ ((k, o) ∷ [])) s d.1 r.1 (Avoids-snoc k o acc s a.1 d.0)
        ∙ append_assoc acc ((k, o) ∷ []) s))

contains_cons :
    (k : Text) (keys : List Text) (s : Store)
    → All (λ e. contains e.0 keys ≡ false) s
    → Dict.get k s ≡ none
    → All (λ e. contains e.0 (k ∷ keys) ≡ false) s
unfolding contains Dict.get
contains_cons k keys [] a h = tt
contains_cons k keys ((j, p) ∷ s) a h =
    (ground (arith, text_eq_iff k j, text_eq_iff j k), contains_cons k keys s a.1 (ground arith))

AreFresh-values :
    (keys : List Text) (s : Store)
    → Distinct s
    → All IsRow s
    → All (λ e. contains e.0 keys ≡ false) s
    → AreFresh keys (Dict.values s)
AreFresh-values keys [] d r a = tt
AreFresh-values keys ((k, o) ∷ s) d r a =
    rw (← r.0.keyed) (a.0, AreFresh-values (k ∷ keys) s d.1 r.1 (contains_cons k keys s a.1 d.0))

nothing_seen : (s : Store) → All (λ e. contains e.0 [] ≡ false) s
unfolding contains
nothing_seen [] = tt
nothing_seen (e ∷ s) = (refl, nothing_seen s)

Avoids-nothing : (s : Store) → Avoids [] s
unfolding Dict.get
Avoids-nothing [] = tt
Avoids-nothing (e ∷ s) = (refl, Avoids-nothing s)

-- An error of the file system, or of the check of the path.
abbrev IsEnvironment : Failure → Type 0
IsEnvironment (system message) = Unit
IsEnvironment (not_regular path) = Unit
IsEnvironment _ = ⊥

-- A load that returns gives the operations, and one that throws has met such an error.
abbrev pub Restores : Store → Result Failure Store → Type 0
Restores s (ok t) = t ≡ s
Restores s (err e) = IsEnvironment e

thrown-IsEnvironment : (e : Failure) → (message : Text) × (e ≡ system message) → IsEnvironment e
thrown-IsEnvironment e (message, same) = subst IsEnvironment (sym same) tt

module _ (fs : FileSystem) (disk : Disk fs) (law : IsLawful fs disk) (file : Text) where
  check-IsEnvironment :
      (b : Bool) (path : Text) (w t : fs.World) (e : Failure)
      → (if b then raise (not_regular path) else pure {A = Unit {0}} tt) w ≡ (err e, t)
      → IsEnvironment e
  check-IsEnvironment true path w t e h =
      subst IsEnvironment {x = not_regular path} {y = e} (cc h) tt
  check-IsEnvironment false path w t e h = cc h

  assert_regular_file-IsEnvironment :
      (w t : fs.World) (e : Failure) → assert_regular_file fs file w ≡ (err e, t) → IsEnvironment e
  unfolding assert_regular_file
  assert_regular_file-IsEnvironment w t e h =
      then_do_cases (λ x. x ≡ (err e, t) → IsEnvironment e) _ (fs.lstat file w)
        (λ f v r k.
          subst IsEnvironment {x = f} {y = e} (cc k)
            (thrown-IsEnvironment f (law.lstat_fails file w v f r)))
        (λ stat v r k. check-IsEnvironment _ file v t e k) h

  module _ (host : Host) (text : Text) (s : Store) (well : IsWellFormed s)
      (storable : All (IsStorable host) (Dict.values s))
      (read_back : host.json_parse text ≡ ok (document_value (Dict.values s))) where
    parsed : parse_persisted_outbox_document host text ≡ ok (Dict.values s)
    parsed =
        parse-written host text (Dict.values s) read_back storable
          (AreFresh-values [] s well.distinct well.rows (nothing_seen s))

    rebuilt : map_of (Dict.values s) [] ≡ s
    rebuilt = map_of-values [] s well.distinct well.rows (Avoids-nothing s)

    loaded :
        (t : Text) (w : fs.World)
        → t ≡ text
        → Restores s
            (then_do
              (λ operations. pure (map_of operations []))
              (of_result unreadable (parse_persisted_outbox_document host t) w)).0
    loaded t w same =
        subst
          (λ (u : Text).
            Restores s
              (then_do (λ operations. pure (map_of operations []))
                (of_result unreadable (parse_persisted_outbox_document host u) w)).0)
          (sym same) (rw (parsed, of_result) rebuilt)

    read_document-Restores :
        (w : fs.World)
        → disk.content w file ≡ some text
        → Restores s (read_document fs file host w).0
    unfolding read_document
    read_document-Restores w c =
        then_do_cases (λ x. Restores s x.0) _ (assert_regular_file fs file w)
          (λ e t r. assert_regular_file-IsEnvironment w t e r)
          (λ _ t r.
            then_do_cases (λ x. Restores s x.0) _ (fs.read_file file t)
              (λ e v r2. thrown-IsEnvironment e (law.read_fails file t v e r2))
              (λ found v r2.
                let kept =
                  Keeps-at fs disk law file _ (assert_regular_file-Keeps fs disk law file file) w in
                let held : disk.content t file ≡ some text = cc (ap (λ x. x.1) r, kept, c) in
                loaded found v (cc (law.read_content file found t v r2, held))))

    pub load-Restores :
        (w : fs.World) → disk.content w file ≡ some text → Restores s (load fs file host w).0
    unfolding load
    load-Restores w c =
        subst (λ (b : Bool). Restores s ((if b then read_document fs file host else pure []) w).0)
          (sym (law.exists_content file text w c)) (read_document-Restores w c)
