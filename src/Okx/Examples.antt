-- ===== src/Okx/Examples.antt =====
-- The bar of sixty minutes.
use okx_cpp_api.Prelude.{ℕ, ◌*◌, ◌≡◌, refl, ◌≢◌, ◌⊎◌}
use okx_cpp_api.Prelude.Int.{pos}
use okx_cpp_api.Enums.{_1m, _1H, _1M, _3M}
use okx_cpp_api.Okx.{number_of_ms_for_bar_size, is_valid_bar_size}
use okx_cpp_api.Okx.Durations.{valid_bar_size_ms}

valid_bar_size_ms_example :
    (n : ℕ) × (pos 60 ≡ pos n)
    × (((_1H ≢ _1M) × (_1H ≢ _3M) × (number_of_ms_for_bar_size _1H ≡ n * 60000))
        ⊎ (((_1H ≡ _1M) ⊎ (_1H ≡ _3M)) × (28 * number_of_ms_for_bar_size _1H ≡ 30 * (n * 60000))))
unfolding is_valid_bar_size
valid_bar_size_ms_example = valid_bar_size_ms (pos 60) _1m _1H refl
