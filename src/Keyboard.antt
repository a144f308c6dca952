-- ===== src/Keyboard.antt =====
-- kernel/kb.c and include/keyboard.h: the keyboard's interrupt handler, the keys that are held, and
-- the buffer of keys read by `get_key`. `set_leds` and the acknowledgement of an interrupt only
-- write to ports.
mod Examples
pub mod Modes
pub mod Queue
use thunix.Base.{
  ℕ, ◌+◌, ◌-◌, ◌*◌, ◌%◌, bit_and, bit_or, bit_xor, Bool, true, false, ◌&&◌, not, Option, none, some,
  List, [], ◌∷◌, ltb, leb, ◌==◌, if◌then◌else◌, length, get_or, store,
}
use thunix.Base.Int.{sub_ℕ, ◌-ℤ◌, pos, negsuc, ℤ}

-- The statics of kernel/kb.c. A byte of `kbd_ring_buffer` past its end is one of whatever lies
-- behind it.
pub record Keyboard : Type 0 where
  pub mode : ℕ
  pub leds : ℕ
  pub kbd_ring_buffer : ℕ → ℕ
  pub ri : ℕ
  pub wi : ℕ
  pub key_left : ℤ
  pub got_e0 : Bool

abbrev pub kbd_buf_size : ℕ
kbd_buf_size = 1024

abbrev pub lshift : ℕ
lshift = 1

abbrev pub rshift : ℕ
rshift = 2

abbrev pub lctrl : ℕ
lctrl = 4

abbrev pub rctrl : ℕ
rctrl = 8

abbrev pub lalt : ℕ
lalt = 16

abbrev pub ralt : ℕ
ralt = 32

abbrev pub caps_lock : ℕ
caps_lock = 4

-- the elements of an array that have a designator; the others are 0
designated : List (ℕ × ℕ) → ℕ → ℕ
designated [] scancode = 0
designated ((place, key) ∷ keys) scancode =
    let rest = designated keys scancode in if scancode == place then key else rest

-- an array given by its first elements, and by those with a designator
table : List ℕ → List (ℕ × ℕ) → ℕ → ℕ
unfolding designated
table keys rest scancode =
    if ltb scancode (length keys) then get_or keys scancode 0 else designated rest scancode

abbrev normal_map : ℕ → ℕ
normal_map =
    table
      (0 ∷ 27 ∷ 49 ∷ 50 ∷ 51 ∷ 52 ∷ 53 ∷ 54 ∷ 55 ∷ 56 ∷ 57 ∷ 48 ∷ 45 ∷ 61 ∷ 8 ∷ 9 ∷ 113 ∷ 119 ∷ 101
        ∷ 114 ∷ 116 ∷ 121 ∷ 117 ∷ 105 ∷ 111 ∷ 112 ∷ 91 ∷ 93 ∷ 10 ∷ 0 ∷ 97 ∷ 115 ∷ 100 ∷ 102 ∷ 103
        ∷ 104 ∷ 106 ∷ 107 ∷ 108 ∷ 59 ∷ 39 ∷ 96 ∷ 0 ∷ 92 ∷ 122 ∷ 120 ∷ 99 ∷ 118 ∷ 98 ∷ 110 ∷ 109 ∷ 44
        ∷ 46 ∷ 47 ∷ 0 ∷ 42 ∷ 0 ∷ 32 ∷ 0 ∷ 0 ∷ 0 ∷ 0 ∷ 0 ∷ 0 ∷ 0 ∷ 0 ∷ 0 ∷ 0 ∷ 0 ∷ 0 ∷ 0 ∷ 224 ∷ 226
        ∷ 230 ∷ 45 ∷ 228 ∷ 53 ∷ 229 ∷ 43 ∷ 225 ∷ 227 ∷ 231 ∷ 232 ∷ 233 ∷ 0 ∷ 0 ∷ 0 ∷ 0 ∷ [])
      ((0x97, 224)
        ∷ (0x9c, 10)
        ∷ (0xb5, 47)
        ∷ (0xc8, 226)
        ∷ (0xc9, 230)
        ∷ (0xcb, 228)
        ∷ (0xcd, 229)
        ∷ (0xcf, 225)
        ∷ (0xd0, 227)
        ∷ (0xd1, 231)
        ∷ (0xd2, 232)
        ∷ (0xd3, 233)
        ∷ [])

abbrev shift_map : ℕ → ℕ
shift_map =
    table
      (0 ∷ 27 ∷ 33 ∷ 64 ∷ 35 ∷ 36 ∷ 37 ∷ 94 ∷ 38 ∷ 42 ∷ 40 ∷ 41 ∷ 95 ∷ 43 ∷ 8 ∷ 9 ∷ 113 ∷ 119 ∷ 101
        ∷ 114 ∷ 116 ∷ 121 ∷ 117 ∷ 105 ∷ 111 ∷ 112 ∷ 123 ∷ 125 ∷ 10 ∷ 0 ∷ 97 ∷ 115 ∷ 100 ∷ 102 ∷ 103
        ∷ 104 ∷ 106 ∷ 107 ∷ 108 ∷ 58 ∷ 34 ∷ 126 ∷ 0 ∷ 124 ∷ 122 ∷ 120 ∷ 99 ∷ 118 ∷ 98 ∷ 110 ∷ 109
        ∷ 60 ∷ 62 ∷ 63 ∷ 0 ∷ 42 ∷ 0 ∷ 32 ∷ 0 ∷ 0 ∷ 0 ∷ 0 ∷ 0 ∷ 0 ∷ 0 ∷ 0 ∷ 0 ∷ 0 ∷ 0 ∷ 0 ∷ 0 ∷ 55
        ∷ 56 ∷ 57 ∷ 45 ∷ 52 ∷ 53 ∷ 54 ∷ 43 ∷ 49 ∷ 50 ∷ 51 ∷ 48 ∷ 46 ∷ 0 ∷ 0 ∷ 0 ∷ 0 ∷ [])
      ((0x97, 224)
        ∷ (0x9c, 10)
        ∷ (0xb5, 47)
        ∷ (0xc8, 226)
        ∷ (0xc9, 230)
        ∷ (0xcb, 228)
        ∷ (0xcd, 229)
        ∷ (0xcf, 225)
        ∷ (0xd0, 227)
        ∷ (0xd1, 231)
        ∷ (0xd2, 232)
        ∷ (0xd3, 233)
        ∷ [])

abbrev ctrl_map : ℕ → ℕ
ctrl_map =
    table
      (0 ∷ 0 ∷ 0 ∷ 0 ∷ 0 ∷ 0 ∷ 0 ∷ 0 ∷ 0 ∷ 0 ∷ 0 ∷ 0 ∷ 0 ∷ 0 ∷ 0 ∷ 0 ∷ 17 ∷ 23 ∷ 5 ∷ 18 ∷ 20 ∷ 25
        ∷ 21 ∷ 9 ∷ 15 ∷ 16 ∷ 0 ∷ 0 ∷ 13 ∷ 0 ∷ 1 ∷ 19 ∷ 4 ∷ 6 ∷ 7 ∷ 8 ∷ 10 ∷ 11 ∷ 12 ∷ 0 ∷ 0 ∷ 32 ∷ 0
        ∷ 28 ∷ 26 ∷ 24 ∷ 3 ∷ 22 ∷ 2 ∷ 14 ∷ 13 ∷ 0 ∷ 0 ∷ 239 ∷ 0 ∷ 0 ∷ [])
      ((0x97, 224)
        ∷ (0xb5, 239)
        ∷ (0xc8, 226)
        ∷ (0xc9, 230)
        ∷ (0xcb, 228)
        ∷ (0xcd, 229)
        ∷ (0xcf, 225)
        ∷ (0xd0, 227)
        ∷ (0xd1, 231)
        ∷ (0xd2, 232)
        ∷ (0xd3, 233)
        ∷ [])

-- `revert_char`
unfoldable pub revert_char : ℕ → ℕ
revert_char ch =
    if leb 97 ch && leb ch 122 then ch - 32 else if leb 65 ch && leb ch 90 then ch + 32 else ch

-- `maps[i]`: an array of six pointers; `beyond` is what stands behind it
maps : (ℕ → Option (ℕ → ℕ)) → ℕ → Option (ℕ → ℕ)
maps beyond i =
    if ltb i 2
    then some shift_map
    else if ltb i 4
    then some ctrl_map
    else if ltb i 6
    then none
    else beyond i

-- `(scancode & 0x80)`: a key is released
abbrev pub is_break : ℕ → Bool
is_break scancode = leb 128 scancode

-- whether `x & flag` is not 0, for a flag of one bit
abbrev pub has_flag : ℕ → ℕ → Bool
has_flag x flag = not (bit_and x flag == 0)

-- `if (mode & (RSHIFT | LSHIFT)) revert_char(&key); if (leds & CAPS_LOCK) revert_char(&key);`
shifted : Keyboard → ℕ → ℕ
unfolding revert_char
shifted k key =
    let key1 = if has_flag k.mode (bit_or rshift lshift) then revert_char key else key in
    if has_flag k.leds caps_lock then revert_char key1 else key1

-- `kbd_ring_buffer[wi] = key; wi = (wi + 1) % KBD_BUF_SIZE;`
unfoldable pub enqueue : Keyboard → ℕ → Keyboard
enqueue k key = record k {
  kbd_ring_buffer = store k.kbd_ring_buffer k.wi key;
  wi = (k.wi + 1) % kbd_buf_size;
}

-- the map that `pln` uses, if any
map_for : (ℕ → Option (ℕ → ℕ)) → ℕ → Option (ℕ → ℕ)
unfolding maps
map_for beyond xmode =
    if xmode == 0
    then some normal_map
    else if bit_or (xmode - 1) xmode == 2 * xmode - 1
    then maps beyond (xmode - 1)
    else none

put_key : Keyboard → ℕ → Option (ℕ → ℕ) → Keyboard
unfolding shifted
put_key k scancode none = k
put_key k scancode (some map) = enqueue k (shifted k (map scancode))

-- `pln`
pub pln : (ℕ → Option (ℕ → ℕ)) → Keyboard → ℕ → Keyboard
unfolding map_for put_key
pln beyond k scancode =
    if is_break scancode then k else put_key k scancode (map_for beyond (bit_and k.mode 0x3f))

-- `set_clear_mode`: `mode &= ~flag` or `mode |= flag`
set_clear_mode : Keyboard → ℕ → ℕ → Keyboard
set_clear_mode k scancode flag =
    if is_break scancode
    then record k { mode = bit_and k.mode (255 - flag) }
    else record k { mode = bit_or k.mode flag }

-- the flag of the modifier that `keyboard_interrupt` finds in the scancode
pub modifier : Bool → ℕ → Option ℕ
modifier got_e0 scancode =
    let code = scancode % 128 in
    if code == 0x2a
    then some lshift
    else if code == 0x36
    then some rshift
    else if code == 0x1d
    then some (if got_e0 then rctrl else lctrl)
    else if code == 0x38
    then some (if got_e0 then ralt else lalt)
    else none

-- `ctrl` and `alt` clear `got_e0`, `shift` does not.
with_modifier : Keyboard → ℕ → ℕ → Keyboard
unfolding set_clear_mode
with_modifier k scancode flag = record (set_clear_mode k scancode flag) {
  got_e0 = k.got_e0 && leb flag rshift;
}

-- `cap`, without the lamps
cap : Keyboard → ℕ → Keyboard
cap k scancode = if is_break scancode then k else record k { leds = bit_xor k.leds caps_lock }

other_key : (ℕ → Option (ℕ → ℕ)) → Keyboard → ℕ → Option ℕ → Keyboard
unfolding cap with_modifier
other_key beyond k scancode (some flag) = with_modifier k scancode flag
other_key beyond k scancode none =
    if scancode % 128 == 0x3a then cap k scancode else pln beyond k scancode

-- `keyboard_interrupt`, where port 0x60 gives `scancode`
pub keyboard_interrupt : (ℕ → Option (ℕ → ℕ)) → Keyboard → ℕ → Keyboard
unfolding other_key
keyboard_interrupt beyond k scancode =
    if scancode == 0xe0
    then record k { got_e0 = true }
    else other_key beyond k scancode (modifier k.got_e0 scancode)

-- the interrupts of a list of scancodes
pub interrupts : (ℕ → Option (ℕ → ℕ)) → Keyboard → List ℕ → Keyboard
interrupts beyond k [] = k
interrupts beyond k (scancode ∷ scancodes) =
    interrupts beyond (keyboard_interrupt beyond k scancode) scancodes

-- `do_get_key`, where `arrived` are the scancodes that come until `sleep` is over: `ri = wi`, and
-- `key_left = wi - ri`
pub do_get_key : (ℕ → Option (ℕ → ℕ)) → Keyboard → List ℕ → Keyboard
do_get_key beyond k arrived =
    let k1 = interrupts beyond (record k { ri = k.wi }) arrived in
    record k1 { key_left = sub_ℕ k1.wi k1.ri }

-- `return kbd_ring_buffer[ri++]` after `key_left--`
unfoldable pub take_key : Keyboard → ℕ × Keyboard
take_key k = (k.kbd_ring_buffer k.ri, record k { ri = k.ri + 1; key_left = k.key_left -ℤ pos 1 })

abbrev is_zero : ℤ → Bool
is_zero (pos n) = n == 0
is_zero (negsuc n) = false

-- `get_key`; `none` where it waits on, as no key has arrived
pub get_key : (ℕ → Option (ℕ → ℕ)) → Keyboard → List ℕ → Option (ℕ × Keyboard)
get_key beyond k arrived =
    let k1 = do_get_key beyond k arrived in
    if not (is_zero k.key_left)
    then some (take_key k)
    else if k1.ri == k1.wi
    then none
    else some (take_key k1)
