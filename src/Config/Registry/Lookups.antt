-- ===== src/Config/Registry/Lookups.antt =====
-- A registry that was built answers by name as a search of the configured actions does.
use microhook.Prelude.{
  ℕ, suc, ◌≡◌, refl, sym, ap, ◌∙◌, Text, List, [], ◌∷◌, ◌++◌, Option, none, some, Map, true, false,
  arith, lookup, insert, trim_space, is_empty, if◌then◌else◌, Bool-cases, Option-cases, inl, inr,
  ◌==◌, eq_iff, eq_refl, lookup-insert,
}
use mathlib.Core.List.{append-nil, append_assoc}
use microhook.Config.{Action}
use microhook.Config.Errors.{Message, action_name_required, action_name_duplicate}
use microhook.Config.Registry.{
  ActionRegistry, empty, get, enabled, register, register_from, registered, registered_if_nil,
  new_action_registry,
}

-- The first action of a name.
unfoldable pub find_action : Text → List Action → Option Action
find_action name [] = none
find_action name (a ∷ actions) = if a.name == name then some a else find_action name actions

abbrev pub if_enabled : Option Action → Option Action
if_enabled none = none
if_enabled (some a) = if a.enabled then some a else none

abbrev or_else {ℓ} : {A : Type ℓ} → Option A → Option A → Option A
or_else none o = o
or_else (some a) o = some a

append-cons-ne-nil {ℓ} : {A : Type ℓ} (xs : List A) (x : A) → xs ++ x ∷ [] ≡ [] → ⊥
append-cons-ne-nil [] x h = cc
append-cons-ne-nil (y ∷ xs) x h = cc

register_from_named :
    (i : ℕ) (seen : Map ℕ) (r : ActionRegistry) (errs : List Message) (a : Action)
    (actions : List Action)
    → is_empty (trim_space a.name) ≡ true
    → register_from i seen r errs (a ∷ actions)
      ≡ register_from (suc i) seen r (errs ++ action_name_required i ∷ []) actions
unfolding register_from
register_from_named i seen r errs a actions e = rw e

module _ (i : ℕ) (seen : Map ℕ) (r : ActionRegistry) (errs : List Message) (a : Action)
    (actions : List Action) (named : is_empty (trim_space a.name) ≡ false) where
  register_from_again :
      (p : ℕ)
      → lookup (trim_space a.name) seen ≡ some p
      → register_from i seen r errs (a ∷ actions)
        ≡ register_from
            (suc i)
            seen
            r
            (errs ++ action_name_duplicate i p (trim_space a.name) ∷ [])
            actions
  unfolding register_from
  register_from_again p e = rw (named, e)

  pub register_from_fresh :
      lookup (trim_space a.name) seen ≡ none
      → register_from i seen r errs (a ∷ actions)
        ≡ register_from (suc i) (insert (trim_space a.name) i seen) (register a r) errs actions
  unfolding register_from
  register_from_fresh e = rw (named, e)

-- Messages are only added.
register_from-nil :
    (actions : List Action) (i : ℕ) (seen : Map ℕ) (r : ActionRegistry) (errs : List Message)
    → (register_from i seen r errs actions).1 ≡ []
    → errs ≡ []
register_from-nil [] i seen r errs h = unfold register_from in h
register_from-nil (a ∷ actions) i seen r errs h = elim (Bool-cases (is_empty (trim_space a.name))) [
  | inl e ↦ absurd (
      append-cons-ne-nil errs _ (
        register_from-nil actions (suc i) _ r _
          (rw (register_from_named i seen r errs a actions e) at h)))
  | inr e ↦ elim (Option-cases (lookup (trim_space a.name) seen)) [
    | inl f ↦
        register_from-nil actions (suc i) _ (register a r) _
          (rw (register_from_fresh i seen r errs a actions e f) at h)
    | inr (p, f) ↦ absurd (
        append-cons-ne-nil errs _ (
          register_from-nil actions (suc i) _ r _
            (rw (register_from_again i seen r errs a actions e p f) at h)))
  ]
]

-- A list with no message begins with an action that has a new name.
register_from_cons :
    (i : ℕ) (seen : Map ℕ) (r : ActionRegistry) (errs : List Message) (a : Action)
    (actions : List Action)
    → (register_from i seen r errs (a ∷ actions)).1 ≡ []
    → (is_empty (trim_space a.name) ≡ false) × (lookup (trim_space a.name) seen ≡ none)
register_from_cons i seen r errs a actions h = elim (Bool-cases (is_empty (trim_space a.name))) [
  | inl e ↦ absurd (
      append-cons-ne-nil errs _ (
        register_from-nil actions (suc i) _ r _
          (rw (register_from_named i seen r errs a actions e) at h)))
  | inr e ↦ elim (Option-cases (lookup (trim_space a.name) seen)) [
    | inl f ↦ (e, f)
    | inr (p, f) ↦ absurd (
        append-cons-ne-nil errs _ (
          register_from-nil actions (suc i) _ r _
            (rw (register_from_again i seen r errs a actions e p f) at h)))
  ]
]

-- No action carries a name that was seen before it.
register_from_seen :
    (actions : List Action) (i : ℕ) (seen : Map ℕ) (r : ActionRegistry) (errs : List Message)
    (name : Text) (p : ℕ)
    → (register_from i seen r errs actions).1 ≡ []
    → lookup (trim_space name) seen ≡ some p
    → find_action name actions ≡ none
unfolding find_action
register_from_seen [] i seen r errs name p h k = refl
register_from_seen (a ∷ actions) i seen r errs name p h k =
    let (named, fresh) = register_from_cons i seen r errs a actions h in
    let rest = rw (register_from_fresh i seen r errs a actions named fresh) at h in
    elim (Bool-cases (a.name == name)) [
      | inl e ↦ let same = (eq_iff a.name name).0 e in cc (rw same at fresh, k)
      | inr e ↦ rw e (
          register_from_seen actions (suc i) (insert (trim_space a.name) i seen) (register a r) errs
            name (if trim_space a.name == trim_space name then i else p) rest
            (ground (arith, lookup-insert (trim_space a.name) (trim_space name) i seen)))
    ]

get-register :
    (a : Action) (r : ActionRegistry) (name : Text)
    → get (register a r) name ≡ (if a.name == name then some a else get r name)
unfolding get register
get-register a r name = lookup-insert a.name name a r.by_name

enabled-register :
    (a : Action) (r : ActionRegistry) (name : Text)
    → enabled (register a r) name
      ≡ (if a.enabled then (if a.name == name then some a else enabled r name) else enabled r name)
unfolding enabled register
enabled-register a r name = ground (arith, lookup-insert a.name name a r.enabled_by_name)

register_ordered :
    (a : Action) (r : ActionRegistry) (actions : List Action)
    → (register a r).ordered ++ actions ≡ r.ordered ++ a ∷ actions
unfolding register
register_ordered a r actions = append_assoc r.ordered (a ∷ []) actions

-- What the loop adds to a registry.
record Extends (r s : ActionRegistry) (actions : List Action) : Type 0 where
  ordered : s.ordered ≡ r.ordered ++ actions
  by_name : (name : Text) → get s name ≡ or_else (find_action name actions) (get r name)
  by_name_enabled :
      (name : Text)
      → enabled s name ≡ or_else (if_enabled (find_action name actions)) (enabled r name)

register_from-Extends :
    (actions : List Action) (i : ℕ) (seen : Map ℕ) (r : ActionRegistry) (errs : List Message)
    → (register_from i seen r errs actions).1 ≡ []
    → Extends r (register_from i seen r errs actions).0 actions
unfolding find_action
register_from-Extends [] i seen r errs h =
    unfold register_from in
    (record {
      ordered = sym (append-nil _);
      by_name = λ name. refl;
      by_name_enabled = λ name. refl;
    })
register_from-Extends (a ∷ actions) i seen r errs h =
    let (named, fresh) = register_from_cons i seen r errs a actions h in
    let step = register_from_fresh i seen r errs a actions named fresh in
    let rest = rw step at h in
    let ih =
      register_from-Extends actions (suc i) (insert (trim_space a.name) i seen) (register a r) errs
        rest in
    let last =
      register_from_seen actions (suc i) (insert (trim_space a.name) i seen) (register a r) errs
        a.name i rest
        (lookup-insert _ _ i seen
          ∙ ap (λ b. if b then some i else lookup (trim_space a.name) seen)
              (eq_refl (trim_space a.name))) in
    rw step (record {
      ordered = ih.ordered ∙ register_ordered a r actions;
      by_name =
          λ name. ground (arith, ih.by_name name, get-register a r name, last, eq_iff a.name name);
      by_name_enabled = λ name.
          ground
            (arith, ih.by_name_enabled name, enabled-register a r name, last, eq_iff a.name name);
    })

-- A registry built from a list of actions holds them in order, answers `Get` as a search of the
-- list by name does, and answers `Enabled` so where the action found is enabled.
pub record Represents (r : ActionRegistry) (actions : List Action) : Type 0 where
  pub ordered : r.ordered ≡ actions
  pub by_name : (name : Text) → get r name ≡ find_action name actions
  pub by_name_enabled : (name : Text) → enabled r name ≡ if_enabled (find_action name actions)

registered_if_nil_inv :
    (built : ActionRegistry × List Message) {r : ActionRegistry}
    → registered_if_nil built ≡ registered r
    → (built.1 ≡ []) × (built.0 ≡ r)
registered_if_nil_inv (s, []) h = (refl, ground arith)
registered_if_nil_inv (s, m ∷ ms) h = cc

or_else-none : (o : Option Action) → or_else o none ≡ o
or_else-none none = refl
or_else-none (some a) = refl

empty-get : (name : Text) → (get empty name ≡ none) × (enabled empty name ≡ none)
unfolding get enabled
empty-get name = (refl, refl)

-- Where a registry is made of actions, it lists them in order, and it answers by name as a search
-- of them does, and for enabled actions as a search followed by the test of the flag does.
pub new_action_registry-Represents :
    (actions : List Action) (r : ActionRegistry)
    → new_action_registry actions ≡ registered r
    → Represents r actions
new_action_registry-Represents actions r h =
    let built = register_from 0 [] empty [] actions in
    let (clean, same) = registered_if_nil_inv built {r = r} (unfold new_action_registry in h) in
    let e = register_from-Extends actions 0 [] empty [] clean in
    rw (← same) (record {
      ordered = e.ordered;
      by_name =
          λ name. e.by_name name ∙ rw (empty-get name).0 (or_else-none (find_action name actions));
      by_name_enabled = λ name. e.by_name_enabled name ∙ rw (empty-get name).1 (or_else-none _);
    })
