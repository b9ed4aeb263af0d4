-- ===== src/Hid/Device.antt =====
-- fidohid/fidohid.go: `New`, which makes the uhid device, the report descriptor, and the names of the
-- commands for the log. The package uhid is a parameter.
use linux_id.Common.{
  ℕ, ◌+◌, ◌/◌, ◌%◌, Option, none, some, [], ◌∷◌, ◌++◌, Bytes, codes, ltb, ◌==◌, if◌then◌else◌,
}
use linux_id.Hid.Types.{
  cmd_ping, cmd_msg, cmd_lock, cmd_init, cmd_wink, cmd_cbor, cmd_sync, cmd_error,
  is_vendor_specific,
}

abbrev bus_usb : ℕ
bus_usb = 0x03

abbrev vendor_id : ℕ
vendor_id = 0x15d9

abbrev product_id : ℕ
product_id = 0x0a37

abbrev rdesc : Bytes
rdesc =
    0x06 ∷ 0xd0 ∷ 0xf1 ∷ 0x09 ∷ 0x01 ∷ 0xa1 ∷ 0x01 ∷ 0x09 ∷ 0x20 ∷ 0x15 ∷ 0x00 ∷ 0x26 ∷ 0xff ∷ 0x00
    ∷ 0x75 ∷ 0x08 ∷ 0x95 ∷ 0x40 ∷ 0x81 ∷ 0x02 ∷ 0x09 ∷ 0x21 ∷ 0x15 ∷ 0x00 ∷ 0x26 ∷ 0xff ∷ 0x00
    ∷ 0x75 ∷ 0x08 ∷ 0x95 ∷ 0x40 ∷ 0x91 ∷ 0x02 ∷ 0xc0 ∷ []

-- uhid.NewDevice by name and descriptor, the assignments to its data, and `Open`.
record Uhid (D C : Type 0) : Type 0 where
  new_device : Bytes → Bytes → Option D
  set_data : ℕ → ℕ → ℕ → D → D
  open_device : D → Option C

-- The channel of authentication events is new, and empty.
record SoftToken (D C : Type 0) : Type 0 where
  device : D
  evt_chan : C

abbrev token_of : {D C : Type 0} → D → Option C → Option (SoftToken D C)
token_of d none = none
token_of d (some c) = some (record { device = d; evt_chan = c })

module _ {D C : Type 0} (uhid : Uhid D C) where
  abbrev with_data : D → D
  with_data d = uhid.set_data bus_usb vendor_id product_id d

  abbrev opened_device : Option D → Option (SoftToken D C)
  opened_device none = none
  opened_device (some d) = token_of (with_data d) (uhid.open_device (with_data d))

  unfoldable new_soft_token : Bytes → Option (SoftToken D C)
  new_soft_token name = opened_device (uhid.new_device name rdesc)

-- A byte in decimal.
abbrev decimal : ℕ → Bytes
decimal c =
    if ltb c 10
    then (48 + c) ∷ []
    else if ltb c 100
    then (48 + c / 10) ∷ (48 + c % 10) ∷ []
    else (48 + c / 100) ∷ (48 + c / 10 % 10) ∷ (48 + c % 10) ∷ []

abbrev numbered : Bytes → ℕ → Bytes
numbered kind c = kind ++ (codes "<" ++ (decimal c ++ codes ">"))

-- `CmdType.String`.
unfoldable command_name : ℕ → Bytes
command_name c =
    if c == cmd_ping
    then codes "CmdPing"
    else if c == cmd_msg
    then codes "CmdMsg"
    else if c == cmd_lock
    then codes "CmdLock"
    else if c == cmd_init
    then codes "CmdInit"
    else if c == cmd_wink
    then codes "CmdWink"
    else if c == cmd_sync
    then codes "CmdSync"
    else if c == cmd_error
    then codes "CmdError"
    else if c == cmd_cbor
    then codes "CmdCbor"
    else if is_vendor_specific c
    then numbered (codes "CmdVendor") c
    else numbered (codes "CmdUnknown") c
