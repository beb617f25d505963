-- ===== src/Input.antt =====
-- crates/geserdesk-proto/src/input.rs: key and mouse events, and the modifier mask (the bits of
-- a u32, as the `bitflags_like` macro makes it).
use geser_desk.Prelude.{ℕ, ℤ, Bool, Option, bit_and, bit_or, ◌==◌}
use Prim.Native.Char.{Char}

pub record ModMask : Type 0 where
  pub bits : ℕ

abbrev pub mask : ℕ → ModMask
mask bits = record { bits = bits }

abbrev pub shift : ModMask
shift = mask 0x0001

abbrev pub control : ModMask
control = mask 0x0002

abbrev pub alt : ModMask
alt = mask 0x0004

abbrev pub meta : ModMask
meta = mask 0x0008

abbrev pub super : ModMask
super = mask 0x0010

abbrev pub alt_gr : ModMask
alt_gr = mask 0x0020

abbrev pub caps_lock : ModMask
caps_lock = mask 0x1000

abbrev pub num_lock : ModMask
num_lock = mask 0x2000

abbrev pub empty_mods : ModMask
empty_mods = mask 0

-- `BitOr` and `BitAnd`.
unfoldable pub mods_or : ModMask → ModMask → ModMask
mods_or a b = mask (bit_or a.bits b.bits)

unfoldable pub mods_and : ModMask → ModMask → ModMask
mods_and a b = mask (bit_and a.bits b.bits)

unfoldable pub mods_contains : ModMask → ModMask → Bool
mods_contains a b = bit_and a.bits b.bits == b.bits

-- The derived `==`.
abbrev pub mods_eq : ModMask → ModMask → Bool
mods_eq a b = a.bits == b.bits

pub data KeyAction : Type 0 where
  down up : KeyAction
  repeats : ℕ → KeyAction

pub record KeyEvent : Type 0 where
  pub hid : ℕ
  pub ch : Option Char
  pub mods : ModMask
  pub action : KeyAction

pub data Button : Type 0 where
  left middle right back forward : Button
  extra : ℕ → Button

pub data MouseEvent : Type 0 where
  move_abs : ℤ → ℤ → MouseEvent
  move_rel : ℤ → ℤ → MouseEvent
  button : Button → Bool → MouseEvent
  wheel : ℤ → ℤ → MouseEvent
