-- ===== src/Keyboard/Examples.antt =====
-- kernel/kb.c: a few keys typed.
use thunix.Base.{ℕ, ◌<◌, ◌≡◌, refl, false, Option, none, some, List, [], ◌∷◌, arith, length}
use thunix.Base.Int.{pos}
use thunix.Keyboard.{
  Keyboard, shifted, enqueue, map_for, put_key, pln, modifier, set_clear_mode, with_modifier,
  other_key, keyboard_interrupt, interrupts, maps, revert_char, table, designated,
}
use thunix.Keyboard.Modes.{IsKeyboard, down, down_after, modifier_nr, keyboard_interrupt-down}
use thunix.Keyboard.Queue.{typed, get_keys, get_keys_lem, keys_of, key_of, key_in}

abbrev beyond : ℕ → Option (ℕ → ℕ)
beyond i = none

-- NUM_LOCK is off, no key is held, and five keys have been read
abbrev idle : Keyboard
idle = record {
  mode = 0;
  leds = 0;
  kbd_ring_buffer = λ i. 0;
  ri = 5;
  wi = 5;
  key_left = pos 0;
  got_e0 = false;
}

idle-IsKeyboard : IsKeyboard idle
idle-IsKeyboard = record { mode_small = omega arith; write_in_buffer = omega arith }

-- `h`, left Shift, `i`, and their release
abbrev scancodes : List ℕ
scancodes = 0x23 ∷ 0xa3 ∷ 0x2a ∷ 0x17 ∷ 0x97 ∷ 0xaa ∷ []

typed_keys : typed beyond idle scancodes ≡ 104 ∷ 73 ∷ []
unfolding typed keys_of key_of key_in map_for maps modifier shifted revert_char keyboard_interrupt
    other_key with_modifier set_clear_mode pln put_key enqueue table designated
typed_keys = refl

-- An arrow key leaves `got_e0` set, and the left Ctrl key is taken for the right one.
left_for_right : (interrupts beyond idle (0xe0 ∷ 0x48 ∷ 0xe0 ∷ 0xc8 ∷ 0x1d ∷ [])).mode ≡ 8
unfolding interrupts map_for maps modifier shifted keyboard_interrupt other_key with_modifier
    set_clear_mode pln put_key enqueue
left_for_right = refl

get_keys_lem_example :
    (k' : Keyboard) × (get_keys beyond (length (typed beyond idle scancodes)) idle scancodes
      ≡ some (typed beyond idle scancodes, k'))
    × (k'.key_left ≡ pos 0)
get_keys_lem_example =
    get_keys_lem beyond idle scancodes refl (omega arith) (rw typed_keys (omega arith))

keyboard_interrupt-down_example :
    IsKeyboard (keyboard_interrupt beyond idle 0x2a)
    × ((j : ℕ)
        → j < 6
        → down (keyboard_interrupt beyond idle 0x2a) j
          ≡ down_after idle 0x2a (modifier_nr false 0x2a) j)
keyboard_interrupt-down_example = keyboard_interrupt-down beyond idle 0x2a idle-IsKeyboard
