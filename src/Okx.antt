-- ===== src/Okx.antt =====
-- src/okx.cpp: bar sizes in milliseconds and in minutes, and the two conversions between the bar
-- sizes of REST and the candlestick channels of the streams. A C++ `switch` also has a default for
-- values that are no enumerator; the enumerators below are all that the types here have.
pub mod Durations
mod Examples
use okx_cpp_api.Prelude.{ℕ, ◌*◌, Bool, true, false, ◌==◌, if◌then◌else◌}
use okx_cpp_api.Prelude.Int.{ℤ, pos, negsuc}
use okx_cpp_api.Enums.{
  BarSize, _1m, _3m, _5m, _15m, _30m, _1H, _2H, _4H, _6H, _12H, _1D, _2D, _3D, _1W, _1M, _3M,
  CandlestickChannel, candle1m, candle3m, candle5m, candle15m, candle30m, candle1_h, candle2_h,
  candle4_h, candle6_h, candle12_h, candle1_d, candle2_d, candle3_d, candle1_w, candle1_m,
  candle3_m,
}

-- `OKX::numberOfMsForBarSize`.
pub number_of_ms_for_bar_size : BarSize → ℕ
number_of_ms_for_bar_size _1m = 60000
number_of_ms_for_bar_size _3m = 60000 * 3
number_of_ms_for_bar_size _5m = 60000 * 5
number_of_ms_for_bar_size _15m = 60000 * 15
number_of_ms_for_bar_size _30m = 60000 * 30
number_of_ms_for_bar_size _1H = 60000 * 60
number_of_ms_for_bar_size _2H = 60000 * 120
number_of_ms_for_bar_size _4H = 60000 * 240
number_of_ms_for_bar_size _6H = 60000 * 360
number_of_ms_for_bar_size _12H = 60000 * 720
number_of_ms_for_bar_size _1D = 86400000
number_of_ms_for_bar_size _2D = 86400000 * 2
number_of_ms_for_bar_size _3D = 86400000 * 3
number_of_ms_for_bar_size _1W = 86400000 * 7
number_of_ms_for_bar_size _1M = 86400000 * 30
number_of_ms_for_bar_size _3M = 86400000 * 30 * 3

-- The cases of `OKX::isValidBarSize`. The result is the returned flag and the `barSize` reference
-- as the call leaves it.
bar_size_of_minutes : ℕ → BarSize → Bool × BarSize
bar_size_of_minutes size bar_size =
    if size == 1
    then (true, _1m)
    else if size == 3
    then (true, _3m)
    else if size == 5
    then (true, _5m)
    else if size == 15
    then (true, _15m)
    else if size == 30
    then (true, _30m)
    else if size == 60
    then (true, _1H)
    else if size == 120
    then (true, _2H)
    else if size == 240
    then (true, _4H)
    else if size == 360
    then (true, _6H)
    else if size == 720
    then (true, _12H)
    else if size == 1440
    then (true, _1D)
    else if size == 2880
    then (true, _2D)
    else if size == 4320
    then (true, _3D)
    else if size == 10080
    then (true, _1W)
    else if size == 40320
    then (true, _1M)
    else if size == 120960
    then (true, _3M)
    else (false, bar_size)

-- `OKX::isValidBarSize`; no case is negative.
pub is_valid_bar_size : ℤ → BarSize → Bool × BarSize
unfolding bar_size_of_minutes
is_valid_bar_size (pos size) bar_size = bar_size_of_minutes size bar_size
is_valid_bar_size (negsuc n) bar_size = (false, bar_size)

-- `OKX::barSizeToCandlestickChannel`.
unfoldable pub bar_size_to_candlestick_channel : BarSize → CandlestickChannel
bar_size_to_candlestick_channel _1m = candle1m
bar_size_to_candlestick_channel _3m = candle3m
bar_size_to_candlestick_channel _5m = candle5m
bar_size_to_candlestick_channel _15m = candle15m
bar_size_to_candlestick_channel _30m = candle30m
bar_size_to_candlestick_channel _1H = candle1_h
bar_size_to_candlestick_channel _2H = candle2_h
bar_size_to_candlestick_channel _4H = candle4_h
bar_size_to_candlestick_channel _6H = candle6_h
bar_size_to_candlestick_channel _12H = candle12_h
bar_size_to_candlestick_channel _1D = candle1_d
bar_size_to_candlestick_channel _2D = candle2_d
bar_size_to_candlestick_channel _3D = candle3_d
bar_size_to_candlestick_channel _1W = candle1_w
bar_size_to_candlestick_channel _1M = candle1_m
bar_size_to_candlestick_channel _3M = candle3_m

-- `OKX::candlestickChannelToBarSize`.
unfoldable pub candlestick_channel_to_bar_size : CandlestickChannel → BarSize
candlestick_channel_to_bar_size candle1m = _1m
candlestick_channel_to_bar_size candle3m = _3m
candlestick_channel_to_bar_size candle5m = _5m
candlestick_channel_to_bar_size candle15m = _15m
candlestick_channel_to_bar_size candle30m = _30m
candlestick_channel_to_bar_size candle1_h = _1H
candlestick_channel_to_bar_size candle2_h = _2H
candlestick_channel_to_bar_size candle4_h = _4H
candlestick_channel_to_bar_size candle6_h = _6H
candlestick_channel_to_bar_size candle12_h = _12H
candlestick_channel_to_bar_size candle1_d = _1D
candlestick_channel_to_bar_size candle2_d = _2D
candlestick_channel_to_bar_size candle3_d = _3D
candlestick_channel_to_bar_size candle1_w = _1W
candlestick_channel_to_bar_size candle1_m = _1M
candlestick_channel_to_bar_size candle3_m = _3M
