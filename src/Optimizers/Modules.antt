-- ===== src/Optimizers/Modules.antt =====
-- The modules of a model, as far as the hooks look at them, and `_named_leaf_module`.
use Prim.Native.Nat.{ℕ}
use Prim.Native.String.{String}
use text.Mathlib.Text.{◌==◌}
use mathlib.Core.List.{◌++◌}
use bluefog.Common.{
  Bool, true, false, if◌then◌else◌, Option, none, some, List, [], ◌∷◌, ◌≡◌, refl, arith,
}
use bluefog.Common.Names.{Names, dotted}

-- The attribute `training` of a module and its `named_parameters()`.
pub record Layer : Type 0 where
  pub training : Bool
  pub named_parameters : Names ℕ

-- A module with its `named_children()`.
mutual
  pub data Module : Type 0 where
    module_of : Layer → Children → Module

  pub data Children : Type 0 where
    no_child : Children
    child : String → Module → Children → Children

-- `parent_name + '.' + name if parent_name else name`
abbrev pub full_name : Option String → String → String
full_name none name = name
full_name (some parent) name = if parent == "" then name else dotted parent name

abbrev pub Leaves : Type 0
Leaves = List (Option String × Layer)

unfoldable mutual
  pub named_leaf_module : Option String → Module → Leaves
  named_leaf_module parent (module_of layer no_child) = (parent, layer) ∷ []
  named_leaf_module parent (module_of layer (child name m rest)) =
      leaves_of parent (child name m rest)

  pub leaves_of : Option String → Children → Leaves
  leaves_of parent no_child = []
  leaves_of parent (child name m rest) =
      named_leaf_module (some (full_name parent name)) m ++ leaves_of parent rest

-- Each leaf has a name.
abbrev pub all_named : Leaves → Bool
all_named [] = true
all_named ((none, layer) ∷ rest) = false
all_named ((some name, layer) ∷ rest) = all_named rest

all_named-append :
    (ls ms : Leaves) → all_named ls ≡ true → all_named ms ≡ true → all_named (ls ++ ms) ≡ true
all_named-append [] ms h k = k
all_named-append ((none, layer) ∷ ls) ms h k = absurd (ground arith)
all_named-append ((some name, layer) ∷ ls) ms h k = all_named-append ls ms h k

mutual
  unfolding named_leaf_module

  named_below :
      (parent : String) (m : Module) → all_named (named_leaf_module (some parent) m) ≡ true
  named_below parent (module_of layer no_child) = refl
  named_below parent (module_of layer (child name m rest)) =
      named_children (some parent) (child name m rest)

  named_children : (parent : Option String) (cs : Children) → all_named (leaves_of parent cs) ≡ true
  named_children parent no_child = refl
  named_children parent (child name m rest) =
      all_named-append (named_leaf_module (some (full_name parent name)) m) (leaves_of parent rest)
        (named_below (full_name parent name) m) (named_children parent rest)

-- A model with a child has a name for each of its leaves; a model without one is a leaf without a
-- name.
pub named_leaf_module-names :
    (layer : Layer) (cs : Children)
    → all_named (named_leaf_module none (module_of layer cs))
      ≡ elim cs [ no_child ↦ false | child name m rest ↦ true ]
unfolding named_leaf_module
named_leaf_module-names layer no_child = refl
named_leaf_module-names layer (child name m rest) = named_children none (child name m rest)
