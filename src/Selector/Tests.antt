-- ===== src/Selector/Tests.antt =====
-- Tests of the numbering of the selectors.
use l25_mysorescript_deoptim.Prelude.{suc, ◌^◌, ◌<◌, ◌≡◌, refl, arith, length}
use l25_mysorescript_deoptim.Prelude.Table.{insert}
use l25_mysorescript_deoptim.Selector.{no_selectors, register_static, lookup_selector}
use l25_mysorescript_deoptim.Selector.Numbering.{
  at_start, IsNumbered, lookup_selector-IsNumbered, lookup_selector_again,
}

room : suc (length (register_static no_selectors).selectors) < 2 ^ 32
unfolding register_static insert
room = omega arith

numbered :
    IsNumbered "size"
      (register_static no_selectors)
      (lookup_selector "size" no_selectors).1
      (lookup_selector "size" no_selectors).0
numbered = lookup_selector-IsNumbered "size" no_selectors (at_start refl) room

lookup_selector-IsNumbered_example :
    IsNumbered "size"
      (register_static no_selectors)
      (lookup_selector "size" no_selectors).1
      (lookup_selector "size" no_selectors).0
lookup_selector-IsNumbered_example =
    lookup_selector-IsNumbered "size" no_selectors (at_start refl) room

lookup_selector_again_example :
    lookup_selector "size" (lookup_selector "size" no_selectors).1
    ≡ lookup_selector "size" no_selectors
lookup_selector_again_example = lookup_selector_again "size" no_selectors (at_start refl) room
