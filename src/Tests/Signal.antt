-- ===== src/Tests/Signal.antt =====
-- Five places with four states for vtr-rs/src/signal.rs.
use vtr.Prelude.{ℕ, ◌+◌, ◌≤◌, ◌≡◌, some, List, [], ◌∷◌, length, arith}
use vtr.Signal.{packed_len, unpack_ascii}
use vtr.Signal.Text.{unpack_ascii_total}

abbrev five_places : List ℕ
five_places = 0xe4 ∷ 1 ∷ []

five_places_fit : packed_len 5 4 ≤ length five_places
unfolding packed_len
five_places_fit = omega arith

unpack_ascii_total_example :
    (text : List ℕ) × ((unpack_ascii five_places 5 4 [] ≡ some text)
      × (length text ≡ length {A = ℕ} [] + 5))
unpack_ascii_total_example = unpack_ascii_total five_places 5 4 [] five_places_fit
