-- ===== src/Prelude/Equal.antt =====
-- `reflect.DeepEqual` on options and lists, from the comparison of the elements.
use mathlib.Core.Path.{◌≡◌, refl, ap}
use mathlib.Core.Bool.{Bool, true, false, ◌&&◌, not}
use mathlib.Core.Option.{Option, none, some}
use mathlib.Core.List.{List, [], ◌∷◌}
use native.Mathlib.Omega.{arith}
use text.Mathlib.Text.{◌==◌ as str_eq}
use text.Mathlib.TextEquality.{eq_iff}
use text.Mathlib.TextPositions.{eq_refl}

abbrev pub eqb_bool : Bool → Bool → Bool
eqb_bool true b = b
eqb_bool false b = not b

-- The comparison says yes exactly for equal values.
pub record Decides {A : Type 0} (eq : A → A → Bool) : Type 0 where
  pub sound : (a b : A) → eq a b ≡ true → a ≡ b
  pub reflexive : (a : A) → eq a a ≡ true

module _ {A : Type 0} (eq : A → A → Bool) where
  abbrev pub eqb_option : Option A → Option A → Bool
  eqb_option none none = true
  eqb_option none (some b) = false
  eqb_option (some a) none = false
  eqb_option (some a) (some b) = eq a b

  unfoldable pub eqb_list : List A → List A → Bool
  eqb_list [] [] = true
  eqb_list [] (b ∷ bs) = false
  eqb_list (a ∷ as') [] = false
  eqb_list (a ∷ as') (b ∷ bs) = eq a b && eqb_list as' bs

  module _ (d : Decides eq) where
    option_sound : (a b : Option A) → eqb_option a b ≡ true → a ≡ b
    option_sound none none h = refl
    option_sound none (some b) h = cc
    option_sound (some a) none h = cc
    option_sound (some a) (some b) h = ap some (d.sound a b h)

    option_reflexive : (a : Option A) → eqb_option a a ≡ true
    option_reflexive none = refl
    option_reflexive (some a) = d.reflexive a

    pub option-Decides : Decides eqb_option
    option-Decides = record { sound = option_sound; reflexive = option_reflexive }

    list_sound : (a b : List A) → eqb_list a b ≡ true → a ≡ b
    unfolding eqb_list
    list_sound [] [] h = refl
    list_sound [] (b ∷ bs) h = cc
    list_sound (a ∷ as') [] h = cc
    list_sound (a ∷ as') (b ∷ bs) h =
        let p : a ≡ b = d.sound a b (ground arith) in
        let q : as' ≡ bs = list_sound as' bs (ground arith) in cc

    list_reflexive : (a : List A) → eqb_list a a ≡ true
    unfolding eqb_list
    list_reflexive [] = refl
    list_reflexive (a ∷ as') = rw (d.reflexive a) (list_reflexive as')

    pub list-Decides : Decides eqb_list
    list-Decides = record { sound = list_sound; reflexive = list_reflexive }

pub string-Decides : Decides str_eq
string-Decides = record { sound = λ a b h. (eq_iff a b).0 h; reflexive = eq_refl }
