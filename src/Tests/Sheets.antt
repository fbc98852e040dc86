-- ===== src/Tests/Sheets.antt =====
-- The layout sheet with the image of the edge weighting.
use df10ch_atmolight_control.Prelude.{◌≡◌, refl, arith, text_eq}
use df10ch_atmolight_control.Result.{ok}
use df10ch_atmolight_control.Areas.{area_index}
use df10ch_atmolight_control.Layout.{empty_layout, entries_of}
use df10ch_atmolight_control.Layout.Window.{
  borders_of, cb_show_edge_weighting, ShowsLayout, cb_show-ShowsLayout,
}
use df10ch_atmolight_control.Screen.{Sizes, counts_of, sizes_of, borders}
use df10ch_atmolight_control.Screen.Shown.{config_areas-named}
use df10ch_atmolight_control.Tests.Dialogs.{layout, counts, counts_test}
use df10ch_atmolight_control.Tests.Shown.{tenths, no_image}

abbrev canvas : Sizes
canvas = record { width = 558; height = 420; a_width = 192; a_height = 144 }

measured : borders_of 600 450 layout ≡ ok (borders counts canvas)
unfolding borders_of sizes_of counts_of area_index text_eq
measured = refl

cb_show-ShowsLayout_example :
    ShowsLayout 600 450 tenths layout
      (borders counts canvas)
      (cb_show_edge_weighting 600 450 tenths (entries_of layout) (empty_layout, no_image))
cb_show-ShowsLayout_example =
    let named =
      config_areas-named 600 450 35 2 layout.num_areas counts (omega arith) (omega arith)
        (omega arith) counts_test
        (omega arith, omega arith, omega arith, omega arith, omega arith) in
    cb_show-ShowsLayout 600 450 tenths layout empty_layout no_image (borders counts canvas) named.0
      refl refl measured named.1
