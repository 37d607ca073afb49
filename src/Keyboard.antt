-- ===== src/Keyboard.antt =====
-- The keyboard of a PC (arch/x86/kbx86.cpp): its modifiers and the ring of 32 keys. A text of the
-- layout is the code point of its character, and 0 the null pointer.
pub mod Layouts
pub mod Buffer
pub mod Modifiers
use cxx_kernel.Base.{
  ℕ, zero, suc, ◌+◌, ◌-◌, ◌*◌, ◌/◌, ◌%◌, Bool, true, false, ◌&&◌, ◌||◌, not, List, [], ◌∷◌, ltb,
  ◌==◌, if◌then◌else◌, update, get_or,
}
use cxx_kernel.Bits.{bit, set_bit, clear_bit}
use cxx_kernel.Keyboard.Layouts.{LayoutCode, get_layout, get_layout_upcase}

-- The static variables of kbx86.cpp; `printed` are the texts given to printf, the last one first.
pub record Keyboard : Type 0 where
  pub layout_code : LayoutCode
  pub mods : ℕ
  pub keybuffer : ℕ → ℕ
  pub write : ℕ
  pub read : ℕ
  pub printed : List ℕ

abbrev pub key_ctrl : ℕ
key_ctrl = 0x1D

abbrev pub key_lshift : ℕ
key_lshift = 0x2A

abbrev pub key_rshift : ℕ
key_rshift = 0x36

abbrev pub key_alt : ℕ
key_alt = 0x38

-- code & KEY_RELEASE
abbrev pub is_release : ℕ → Bool
is_release code = not (code / 128 % 2 == 0)

-- bcode & KEY_RIGHT_MODIFIER
abbrev pub is_right : ℕ → Bool
is_right bcode = not (bcode / 32 % 4 == 0)

-- The bits of MOD_SHIFT, MOD_CTRL, MOD_ALT, MOD_ALTGR and MOD_RIGHT are 1, 2, 3, 4 and 5.
abbrev pub has_mod : ℕ → ℕ → Bool
has_mod k mods = not (bit mods k == 0)

abbrev pub clear_when : Bool → ℕ → ℕ → ℕ
clear_when b k mods = if b then clear_bit mods k else mods

unfoldable pub release_mods : ℕ → ℕ → ℕ
release_mods bcode mods =
    let m1 = clear_when (bcode == key_lshift) 1 mods in
    let m2 = clear_when (bcode == key_rshift) 1 m1 in
    let m3 = clear_when (bcode == key_ctrl) 2 m2 in
    let m4 = clear_when (bcode == key_alt) (if has_mod 5 m3 then 4 else 3) m3 in
    clear_when (is_right bcode) 5 m4

unfoldable pub press_mods : ℕ → ℕ → ℕ
press_mods bcode mods =
    let m1 = if is_right bcode then set_bit mods 5 else mods in
    if bcode == key_lshift || bcode == key_rshift
    then set_bit m1 1
    else if bcode == key_ctrl
    then set_bit m1 2
    else if bcode == key_alt
    then set_bit m1 (if has_mod 5 m1 then 4 else 3)
    else m1

-- What a key is mapped to under the modifiers; codes from 0x60 on are passed over.
unfoldable pub mapped_key : LayoutCode → ℕ → ℕ → ℕ
mapped_key layout mods bcode =
    if ltb bcode 0x60
    then if has_mod 1 mods
      then get_or (get_layout_upcase layout) bcode 0
      else get_or (get_layout layout) bcode 0
    else 0

unfoldable pub put_key : ℕ → Keyboard → Keyboard
put_key mapped k = if mapped == 0 then k else record k {
  printed = mapped ∷ k.printed;
  keybuffer = update k.keybuffer k.write mapped;
  write = (k.write + 1) % 32;
}

-- run, for a code that the port gave.
unfoldable pub run : ℕ → Keyboard → Keyboard
run code k =
    let mods = press_mods code k.mods in
    if is_release code
    then record k { mods = release_mods (code - 128) k.mods }
    else put_key (mapped_key k.layout_code mods code) (record k { mods = mods })

unfoldable pub has_key : Keyboard → Bool
has_key k = not (k.write == k.read)

-- getKey, where 0 is the null pointer.
unfoldable pub get_key : Keyboard → ℕ × Keyboard
get_key k =
    if k.write == k.read
    then (0, k)
    else (k.keybuffer k.read, record k { read = (k.read + 1) % 32 })

-- The interrupt with a code, or a call of getKey.
pub data Event : Type 0 where
  code : ℕ → Event
  read_key : Event

-- The keys that the calls of getKey return, and the keyboard that is left.
unfoldable pub run_all : List Event → Keyboard → List ℕ × Keyboard
run_all [] k = ([], k)
run_all (code c ∷ es) k = run_all es (run c k)
run_all (read_key ∷ es) k =
    let (key, k') = get_key k in let (keys, last) = run_all es k' in (key ∷ keys, last)
