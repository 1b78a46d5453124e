-- ===== src/Hoymiles/Control/Frame.antt =====
-- What a limit command carries is what it was set to.
use flux_dtu.Base.{ℕ, ◌+◌, ◌*◌, ◌/◌, ◌<◌, ◌≡◌, refl, arith, u8}
use flux_dtu.Hoymiles.Crc.{crc16}
use flux_dtu.Hoymiles.Crc.Detects.{AllBytes, no_bytes, more_bytes, crc16_lt}
use flux_dtu.Hoymiles.Device.{
  PowerLimitControlType, absolut_non_persistent, relativ_non_persistent, absolut_persistent,
  relativ_persistent,
}
use flux_dtu.Hoymiles.Command.{
  ActivePowerControlDeviceType, hm_active_power_control, hms_active_power_control,
}
use flux_dtu.Hoymiles.Control.{
  Payload, put_byte, bytes_from, udpate_crc, get_control_type_value, set_active_power_limit,
  get_limit, get_type,
}

udpate_crc-bytes : (p : Payload) → bytes_from (udpate_crc 6 p) 6 10 ≡ bytes_from p 6 10
unfolding udpate_crc put_byte bytes_from
udpate_crc-bytes p = refl

crc_at :
    (p : Payload)
    → crc16 (bytes_from p 6 10) 65_535 < 65_536
    → udpate_crc 6 p 16 * 256 + udpate_crc 6 p 17 ≡ crc16 (bytes_from p 6 10) 65_535
unfolding udpate_crc put_byte
crc_at p lt = omega (arith, lt)

-- The checksum is that of the six bytes before it.
udpate_crc_lem :
    (p : Payload)
    → AllBytes (bytes_from p 6 10)
    → let p' = udpate_crc 6 p in p' 16 * 256 + p' 17 ≡ crc16 (bytes_from p' 6 10) 65_535
udpate_crc_lem p h =
    rw (udpate_crc-bytes p) (crc_at p (crc16_lt (bytes_from p 6 10) 65_535 h (omega arith)))

get_type_lem :
    (device : ActivePowerControlDeviceType) (l : ℕ) (type : PowerLimitControlType) (p : Payload)
    → get_type device (set_active_power_limit device l type p) ≡ type
unfolding get_type set_active_power_limit udpate_crc put_byte get_control_type_value
get_type_lem hm_active_power_control l absolut_non_persistent p = refl
get_type_lem hm_active_power_control l relativ_non_persistent p = refl
get_type_lem hm_active_power_control l absolut_persistent p = refl
get_type_lem hm_active_power_control l relativ_persistent p = refl
get_type_lem hms_active_power_control l absolut_non_persistent p = refl
get_type_lem hms_active_power_control l relativ_non_persistent p = refl
get_type_lem hms_active_power_control l absolut_persistent p = refl
get_type_lem hms_active_power_control l relativ_persistent p = refl

get_limit_lem :
    (device : ActivePowerControlDeviceType) (l : ℕ) (type : PowerLimitControlType) (p : Payload)
    → l < 65_536
    → get_limit (set_active_power_limit device l type p) ≡ l
unfolding get_limit set_active_power_limit udpate_crc put_byte
get_limit_lem device l type p lt = omega (arith, lt)

put_bytes-AllBytes :
    (a b c d : ℕ) (p : Payload)
    → p 10 < 256
    → p 11 < 256
    → AllBytes (bytes_from (put_byte 15 a (put_byte 14 b (put_byte 13 c (put_byte 12 d p)))) 6 10)
unfolding put_byte bytes_from
put_bytes-AllBytes a b c d p x y = more_bytes (p 10) _ x (
    more_bytes (p 11) _ y (
      more_bytes (u8 d) _ (omega arith) (
        more_bytes (u8 c) _ (omega arith)
          (more_bytes (u8 b) _ (omega arith) (more_bytes (u8 a) _ (omega arith) no_bytes)))))

-- The limit, in tenths, and the type that a limit command was given are read back from its frame,
-- for both kinds of inverters; and the frame's 16-bit checksum is that of its six bytes of data.
pub set_active_power_limit_lem :
    (device : ActivePowerControlDeviceType) (l : ℕ) (type : PowerLimitControlType) (p : Payload)
    → l < 65_536
    → p 10 < 256
    → p 11 < 256
    → let p' = set_active_power_limit device l type p in
      (get_limit p' ≡ l)
      × (get_type device p' ≡ type)
      × (p' 16 * 256 + p' 17 ≡ crc16 (bytes_from p' 6 10) 65_535)
unfolding set_active_power_limit
set_active_power_limit_lem device l type p lt x y =
    let value = get_control_type_value device type in
    (
      get_limit_lem device l type p lt,
      get_type_lem device l type p,
      udpate_crc_lem _ (put_bytes-AllBytes value (value / 256) l (l / 256) p x y),
    )
