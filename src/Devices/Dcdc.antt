-- ===== src/Devices/Dcdc.antt =====
-- The DC-DC converters of the wheels and of the propulsion and docking board:
-- src/fsw/FCCode/Drivers/DCDC.cpp and DCDCController.cpp. A pin that was written reads as written.
use flight_software.Base.{◌≡◌, Bool, true, false, not, ◌&&◌, ◌||◌, if◌then◌else◌, arith}

-- The pins of the driver and the fields of the controller.
pub record DcdcController : Type 0 where
  pub adcs_pin : Bool
  pub sph_pin : Bool
  pub adcs_cmd : Bool
  pub sph_cmd : Bool
  pub disable_cmd : Bool
  pub reset_cmd : Bool
  pub adcs_on : Bool
  pub sph_on : Bool

-- DCDC::enable_adcs and DCDC::disable_adcs, DCDC::enable_sph and DCDC::disable_sph.
unfoldable pub set_adcs : Bool → DcdcController → DcdcController
set_adcs b c = record c { adcs_pin = b }

unfoldable pub set_sph : Bool → DcdcController → DcdcController
set_sph b c = record c { sph_pin = b }

-- DCDC::disable.
unfoldable pub disable : DcdcController → DcdcController
unfolding set_adcs set_sph
disable c = set_sph false (set_adcs false c)

-- The first two tests of `execute`, one for each converter.
unfoldable pub follow_commands : DcdcController → DcdcController
unfolding set_adcs set_sph
follow_commands c =
    let c₁ =
      if c.adcs_cmd && not c.adcs_pin
      then set_adcs true c
      else if not c.adcs_cmd && c.adcs_pin
      then set_adcs false c
      else c in
    if c₁.sph_cmd && not c₁.sph_pin
    then set_sph true c₁
    else if not c₁.sph_cmd && c₁.sph_pin
    then set_sph false c₁
    else c₁

-- The third test.
unfoldable pub handle_disable : DcdcController → DcdcController
unfolding disable
handle_disable c =
    if c.disable_cmd
    then record (if c.adcs_pin || c.sph_pin
        then record (disable c) { adcs_cmd = false; sph_cmd = false }
        else c) { disable_cmd = false }
    else c

-- The fourth test.
unfoldable pub handle_reset : DcdcController → DcdcController
unfolding disable set_adcs set_sph
handle_reset c =
    if c.reset_cmd
    then (if c.adcs_pin || c.sph_pin
        then record (disable c) { adcs_cmd = false; sph_cmd = false }
        else record (set_sph true (set_adcs true c)) {
          adcs_cmd = true;
          sph_cmd = true;
          reset_cmd = false;
        })
    else c

unfoldable pub execute : DcdcController → DcdcController
unfolding follow_commands handle_disable handle_reset
execute c =
    let n = handle_reset (handle_disable (follow_commands c)) in
    record n { adcs_on = n.adcs_pin; sph_on = n.sph_pin }

-- After a control cycle the pins are what the commands say and what the fields report, whatever the
-- commands were, and no command to disable is left.
pub execute-pins :
    (c : DcdcController)
    → let n = execute c in
      (n.adcs_pin ≡ n.adcs_cmd)
      × (n.sph_pin ≡ n.sph_cmd)
      × (n.adcs_on ≡ n.adcs_pin)
      × (n.sph_on ≡ n.sph_pin)
      × (n.disable_cmd ≡ false)
unfolding execute follow_commands handle_disable handle_reset disable set_adcs set_sph
execute-pins c = ground arith

-- A reset switches both converters off, leaves them off for one control cycle, switches them on and
-- is over in the next cycle, if one of them is to be on when it is asked for and nobody asks to
-- disable them.
pub execute_reset :
    (c : DcdcController)
    → c.reset_cmd ≡ true
    → c.disable_cmd ≡ false
    → (c.adcs_cmd || c.sph_cmd) ≡ true
    → let n = execute c in
      (n.adcs_pin ≡ false)
      × (n.sph_pin ≡ false)
      × (n.reset_cmd ≡ true)
      × ((execute n).adcs_pin ≡ true)
      × ((execute n).sph_pin ≡ true)
      × ((execute n).reset_cmd ≡ false)
unfolding execute follow_commands handle_disable handle_reset disable set_adcs set_sph
execute_reset c h k l = ground arith
