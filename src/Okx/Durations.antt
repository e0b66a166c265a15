-- ===== src/Okx/Durations.antt =====
-- What okx.cpp promises: the two conversions are inverse, and the minutes that `isValidBarSize`
-- accepts against the milliseconds of the bar that it gives.
use okx_cpp_api.Prelude.{ℕ, ◌*◌, ◌≡◌, refl, ◌≢◌, ◌⊎◌, true, false, arith}
use okx_cpp_api.Prelude.Int.{ℤ, pos, negsuc}
use okx_cpp_api.Enums.{
  BarSize, _1m, _3m, _5m, _15m, _30m, _1H, _2H, _4H, _6H, _12H, _1D, _2D, _3D, _1W, _1M, _3M,
  CandlestickChannel, candle1m,
}
use okx_cpp_api.Okx.{
  number_of_ms_for_bar_size, is_valid_bar_size, bar_size_to_candlestick_channel,
  candlestick_channel_to_bar_size,
}

channel-bar_size :
    (b : BarSize) → candlestick_channel_to_bar_size (bar_size_to_candlestick_channel b) ≡ b
unfolding bar_size_to_candlestick_channel candlestick_channel_to_bar_size
channel-bar_size _1m = refl
channel-bar_size _ = refl

bar_size-channel :
    (c : CandlestickChannel)
    → bar_size_to_candlestick_channel (candlestick_channel_to_bar_size c) ≡ c
unfolding bar_size_to_candlestick_channel candlestick_channel_to_bar_size
bar_size-channel candle1m = refl
bar_size-channel _ = refl

-- A bar size comes back from its candlestick channel, and a channel from its bar size.
pub channel_roundtrip :
    ((b : BarSize) → candlestick_channel_to_bar_size (bar_size_to_candlestick_channel b) ≡ b)
    × ((c : CandlestickChannel)
        → bar_size_to_candlestick_channel (candlestick_channel_to_bar_size c) ≡ c)
channel_roundtrip = (channel-bar_size, bar_size-channel)

-- If a number of minutes is accepted, the bar that it gives lasts that many minutes in
-- `numberOfMsForBarSize`, unless it is a bar of months; such a bar lasts 30/28 of the accepted
-- minutes, as it is accepted at 28 days a month and lasts 30.
pub valid_bar_size_ms :
    (size : ℤ) (old b : BarSize)
    → is_valid_bar_size size old ≡ (true, b)
    → (n : ℕ) × (size ≡ pos n)
      × (((b ≢ _1M) × (b ≢ _3M) × (number_of_ms_for_bar_size b ≡ n * 60000))
          ⊎ (((b ≡ _1M) ⊎ (b ≡ _3M)) × (28 * number_of_ms_for_bar_size b ≡ 30 * (n * 60000))))
unfolding is_valid_bar_size number_of_ms_for_bar_size
valid_bar_size_ms (pos n) old b h = (n, refl, ground arith)
valid_bar_size_ms (negsuc n) old b h = cc

-- The minutes at which `isValidBarSize` gives a bar size.
abbrev minutes : BarSize → ℕ
minutes _1m = 1
minutes _3m = 3
minutes _5m = 5
minutes _15m = 15
minutes _30m = 30
minutes _1H = 60
minutes _2H = 120
minutes _4H = 240
minutes _6H = 360
minutes _12H = 720
minutes _1D = 1440
minutes _2D = 2880
minutes _3D = 4320
minutes _1W = 10080
minutes _1M = 40320
minutes _3M = 120960

valid-minutes : (b old : BarSize) → is_valid_bar_size (pos (minutes b)) old ≡ (true, b)
unfolding is_valid_bar_size
valid-minutes _1m old = refl
valid-minutes _ old = refl

refused_keeps :
    (size : ℤ) (old : BarSize)
    → (is_valid_bar_size size old).0 ≡ false
    → (is_valid_bar_size size old).1 ≡ old
unfolding is_valid_bar_size
refused_keeps (pos n) old h = ground arith
refused_keeps (negsuc n) old h = refl

-- Every bar size is given for some number of minutes, whatever the reference held before, and a
-- number that is refused leaves the reference as it was.
pub valid_bar_size_onto :
    ((b : BarSize) → (n : ℕ) × ((old : BarSize) → is_valid_bar_size (pos n) old ≡ (true, b)))
    × ((size : ℤ) (old : BarSize)
        → (is_valid_bar_size size old).0 ≡ false
        → (is_valid_bar_size size old).1 ≡ old)
valid_bar_size_onto = (λ b. (minutes b, valid-minutes b), refused_keeps)
