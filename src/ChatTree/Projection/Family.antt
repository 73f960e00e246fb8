-- ===== src/ChatTree/Projection/Family.antt =====
-- The children of the messages, as the third loop of the projection collects them: those whose
-- parent the message is, in order.
use mathlib.Core.List.{append_assoc, append-nil}
use openwebui_gjc_adapter.ChatTree.{Entry, is_message}
use openwebui_gjc_adapter.ChatTree.Projection.{no_children, push_child, add_child, add_children}
use openwebui_gjc_adapter.Prelude.{
  ◌≡◌, ◌↔◌, refl, sym, ap, ◌∙◌, true, false, inl, inr, List, [], ◌∷◌, ◌++◌, Option, none, some,
  Text, arith, All, if◌then◌else◌, Bool-cases, Option-cases, text_eq, text_eq_iff, option_eq,
  option_eq_iff, contains,
}
use openwebui_gjc_adapter.Prelude.Dict
use openwebui_gjc_adapter.Prelude.Dict.{Dict, Distinct, get-set, get-set_self}

pub children_of : Text → Dict (Option Text) → List Text
children_of a [] = []
children_of a ((id, p) ∷ ps) =
    let rest = children_of a ps in if option_eq p (some a) then id ∷ rest else rest

-- `ids` pushed onto what is there, if something is.
abbrev pub pushed : Option (List Text) → List Text → Option (List Text)
pushed none ids = none
pushed (some xs) ids = some (xs ++ ids)

pushed-nil : (o : Option (List Text)) → pushed o [] ≡ o
pushed-nil none = refl
pushed-nil (some xs) = rw append-nil

get-add_child :
    (a id : Text) (p : Option Text) (c : Dict (List Text))
    → Dict.get a (add_child id p c)
      ≡ pushed (Dict.get a c) (if option_eq p (some a) then id ∷ [] else [])
unfolding add_child option_eq
get-add_child a id none c = sym (pushed-nil (Dict.get a c))
get-add_child a id (some p) c = elim (Option-cases (Dict.get p c)) [
  | inl g ↦
      rw (g, push_child)
        (elim (Bool-cases (text_eq p a)) [
          | inl e ↦ rw e (rw (← (text_eq_iff p a).0 e) (rw g refl))
          | inr e ↦ rw e (sym (pushed-nil (Dict.get a c)))
        ])
  | inr (xs, g) ↦
      rw (g, push_child)
        (rw get-set (elim (Bool-cases (text_eq p a)) [
          | inl e ↦ rw e (rw (← (text_eq_iff p a).0 e) (rw g refl))
          | inr e ↦ rw e (sym (pushed-nil (Dict.get a c)))
        ]))
]

pushed-pushed :
    (o : Option (List Text)) (xs ys : List Text) → pushed (pushed o xs) ys ≡ pushed o (xs ++ ys)
pushed-pushed none xs ys = refl
pushed-pushed (some zs) xs ys = rw append_assoc

pub get-add_children :
    (a : Text) (ps : Dict (Option Text)) (c : Dict (List Text))
    → Dict.get a (add_children ps c) ≡ pushed (Dict.get a c) (children_of a ps)
unfolding add_children children_of
get-add_children a [] c = sym (pushed-nil (Dict.get a c))
get-add_children a ((id, p) ∷ ps) c =
    get-add_children a ps (add_child id p c)
    ∙ ap (λ o. pushed o (children_of a ps)) (get-add_child a id p c)
    ∙ pushed-pushed (Dict.get a c) _ _
    ∙ ap (pushed (Dict.get a c)) (ground arith)

children_of-fresh :
    (a b : Text) (ps : Dict (Option Text))
    → Dict.get b ps ≡ none
    → contains b (children_of a ps) ≡ false
unfolding children_of contains Dict.get
children_of-fresh a b [] h = refl
children_of-fresh a b ((id, p) ∷ ps) h = ground (arith, children_of-fresh a b ps, text_eq_iff id b)

-- A message is among another's children exactly if the other is its parent.
pub contains-children_of :
    (a b : Text) (ps : Dict (Option Text))
    → Distinct ps
    → contains b (children_of a ps) ≡ true ↔ Dict.get b ps ≡ some (some a)
unfolding children_of contains Dict.get
contains-children_of a b [] d = (λ h. cc h, λ h. cc h)
contains-children_of a b ((id, p) ∷ ps) d = elim (Bool-cases (text_eq id b)) [
  | inl e ↦
      let fresh = children_of-fresh a b ps (rw (← (text_eq_iff id b).0 e) d.0) in
      (λ h. ground (arith, option_eq_iff p (some a)), λ h. ground (arith, option_eq_iff p (some a)))
  | inr e ↦
      let rest = contains-children_of a b ps d.1 in
      (λ h. ground (arith, rest.0), λ h. ground (arith, rest.1))
]

no_children-kept :
    (a : Text) (es : List Entry) (c : Dict (List Text))
    → Dict.get a c ≡ some []
    → Dict.get a (no_children es c) ≡ some []
unfolding no_children
no_children-kept a [] c h = h
no_children-kept a (e ∷ es) c h =
    no_children-kept a es _ (ground (arith, get-set e.id a [] c, text_eq_iff e.id a))

-- Each message starts with no children.
pub get-no_children :
    (es : List Entry) (c : Dict (List Text))
    → All (λ e. is_message e ≡ true → Dict.get e.id (no_children es c) ≡ some []) es
unfolding no_children
get-no_children [] c = tt
get-no_children (e ∷ es) c =
    (λ m. no_children-kept e.id es _ (rw m (get-set_self e.id [] c)), get-no_children es _)
