-- ===== src/MapDialog/Buttons.antt =====
-- The color buttons of the channel mapping sheet (df10ch_setup_pkg/map_dlg.py).
use df10ch_atmolight_control.Prelude.{ℕ, ◌≡◌, refl, List, [], ◌∷◌, Text}
use df10ch_atmolight_control.Exec.{Exec}
use df10ch_atmolight_control.Decimal.{codes}
use df10ch_atmolight_control.Controller.Payload.{ChannelRec}
use df10ch_atmolight_control.MapDialog.{Sheet, cb_set_color}
use df10ch_atmolight_control.MapDialog.Fill.{cb_set_group_color}

pub data Color : Type 0 where
  red green blue : Color

abbrev pub name_of : Color → Text
name_of red = codes "red"
name_of green = codes "green"
name_of blue = codes "blue"

-- The six buttons for a group, named by what they show.
pub data Group : Type 0 where
  rgb rbg grb brg gbr bgr : Group

unfoldable pub colors_of : Group → Color × Color × Color
colors_of rgb = (red, green, blue)
colors_of rbg = (red, blue, green)
colors_of grb = (green, red, blue)
colors_of brg = (blue, red, green)
colors_of gbr = (green, blue, red)
colors_of bgr = (blue, green, red)

unfoldable pub text_of : Group → Text
text_of rgb = codes "RGB"
text_of rbg = codes "RBG"
text_of grb = codes "GRB"
text_of brg = codes "BRG"
text_of gbr = codes "GBR"
text_of bgr = codes "BGR"

module _ {L : Type 0} (set_channel_map : Text → ℕ → List ChannelRec → Exec L (Unit {0}))
    (set_brightness : Text → ℕ → List ℕ → Exec L (Unit {0})) where
  unfoldable pub press_color : Color → Exec (Sheet L) (Unit {0})
  press_color color = cb_set_color set_channel_map (name_of color)

  unfoldable pub press_group : Group → Exec (Sheet L) (Unit {0})
  press_group group =
      let (first, second, third) = colors_of group in
      cb_set_group_color set_channel_map set_brightness (name_of first) (name_of second)
        (name_of third)

abbrev initial : Color → ℕ
initial red = b'R'
initial green = b'G'
initial blue = b'B'

-- A group's button shows the initials of the colors that it sets, in their order.
text_of-colors_of :
    (group : Group)
    → text_of group ≡ (
        let (first, second, third) = colors_of group in
        initial first ∷ initial second ∷ initial third ∷ [])
unfolding text_of colors_of
text_of-colors_of rgb = refl
text_of-colors_of rbg = refl
text_of-colors_of grb = refl
text_of-colors_of brg = refl
text_of-colors_of gbr = refl
text_of-colors_of bgr = refl
