-- ===== src/Ws/Streams/Channels.antt =====
-- Names for the candlestick channels, for examples: "candle" and the name of the bar size.
use okx_cpp_api.Prelude.{◌≡◌, refl, some, List, [], ◌∷◌, ◌++◌, Bytes, codes}
use okx_cpp_api.Enums.{
  bar_size_name, CandlestickChannel, candle1m, candle3m, candle5m, candle15m, candle30m, candle1_h,
  candle2_h, candle4_h, candle6_h, candle12_h, candle1_d, candle2_d, candle3_d, candle1_w,
  candle1_m, candle3_m, EnumText,
}
use okx_cpp_api.Enums.Names.{find_name, named}
use okx_cpp_api.Okx.{candlestick_channel_to_bar_size}

abbrev pub channel_name : CandlestickChannel → Bytes
channel_name c = codes "candle" ++ bar_size_name (candlestick_channel_to_bar_size c)

abbrev pub all_channels : List CandlestickChannel
all_channels =
    candle1m ∷ candle3m ∷ candle5m ∷ candle15m ∷ candle30m ∷ candle1_h ∷ candle2_h ∷ candle4_h
    ∷ candle6_h ∷ candle12_h ∷ candle1_d ∷ candle2_d ∷ candle3_d ∷ candle1_w ∷ candle1_m ∷ candle3_m
    ∷ []

pub channel_name_found :
    (c : CandlestickChannel) → find_name channel_name all_channels (channel_name c) ≡ some c
unfolding candlestick_channel_to_bar_size bar_size_name find_name
channel_name_found candle1m = refl
channel_name_found _ = refl

abbrev pub channels : EnumText CandlestickChannel
channels = named channel_name all_channels channel_name_found
