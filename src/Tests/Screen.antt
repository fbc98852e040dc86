-- ===== src/Tests/Screen.antt =====
-- The geometry of the areas, and keys that collide.
use df10ch_atmolight_control.Prelude.{◌≡◌, refl, [], ◌∷◌, All, arith, none}
use df10ch_atmolight_control.Prelude.Int.{pos}
use df10ch_atmolight_control.Result.{ok}
use df10ch_atmolight_control.Config.Encode.{
  Encoder, request_key, lookup_key, request_bytes, add_output, encode_request,
}
use df10ch_atmolight_control.Config.Collisions.{request_keys_collide}
use df10ch_atmolight_control.Screen.{Counts, Sizes, borders, step, last_at}
use df10ch_atmolight_control.Screen.Polygons.{
  top_polygons, bottom_polygons, left_polygons, right_polygons, corner_polygons, along, ends_of,
}
use df10ch_atmolight_control.Screen.Window.{InWindow, areas-InWindow, right_outside}

abbrev pub counts : Counts
counts = record {
  top = 2;
  bottom = 1;
  left = 1;
  right = 1;
  center = 1;
  top_left = 0;
  top_right = 1;
  bottom_left = 0;
  bottom_right = 1;
}

abbrev pub sizes : Sizes
sizes = record { width = 600; height = 450; a_width = 128; a_height = 96 }

top_test :
    top_polygons counts (borders counts sizes)
    ≡ (0 ∷ 0 ∷ 42 ∷ 0 ∷ 42 ∷ 32 ∷ 42 ∷ 32 ∷ []) ∷ (42 ∷ 0 ∷ 85 ∷ 0 ∷ 85 ∷ 32 ∷ 42 ∷ 32 ∷ []) ∷ []
unfolding top_polygons borders step last_at along ends_of
top_test = refl

areas-InWindow_example :
    All (InWindow 128 96) (top_polygons counts (borders counts sizes))
    × All (InWindow 128 96) (bottom_polygons counts (borders counts sizes))
    × All (InWindow 128 96) (left_polygons counts (borders counts sizes))
    × All (InWindow 128 96) (corner_polygons counts (borders counts sizes))
areas-InWindow_example = areas-InWindow counts sizes

right_outside_example :
    All (λ p. ¬ InWindow 128 96 p) (right_polygons counts (borders counts sizes))
right_outside_example = right_outside counts sizes (omega arith) (omega arith) (omega arith)

abbrev empty_encoder : Encoder
empty_encoder = record { requests = 0; known = []; eedata = []; outputs = [] }

abbrev first_encoder : Encoder
first_encoder = record {
  requests = 1;
  known = (request_key 0 (pos 1) 12 20, 0) ∷ [];
  eedata = 0 ∷ 0 ∷ 1 ∷ 12 ∷ 20 ∷ 0 ∷ [];
  outputs = record { channel = 0; port = 0; pins = 1 } ∷ [];
}

no_key_known : lookup_key (request_key 0 (pos 1) 12 20) empty_encoder.known ≡ none
unfolding lookup_key
no_key_known = refl

first_encoded : encode_request (0, 1) 0 (pos 1) 12 20 empty_encoder ≡ ok first_encoder
unfolding encode_request lookup_key request_bytes
first_encoded = refl

request_keys_collide_example :
    encode_request (0, 2) 0 (pos 11) 22 0 first_encoder ≡ ok (add_output first_encoder 0 (0, 2))
request_keys_collide_example =
    request_keys_collide (0, 1) (0, 2) 0 empty_encoder first_encoder no_key_known first_encoded
